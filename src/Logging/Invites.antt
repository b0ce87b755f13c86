-- ===== src/Logging/Invites.antt =====
-- logging/invites: the handlers of created and deleted invites, over the store of invites in Redis.
-- What libraries write, the time and Discord's list of a guild's invites are arguments; Discord is
-- asked anew by each event. What is only written to the program's own log is left out.
pub mod Knowledge
mod Tests
use catalogger.Common.Colours.{colour_green, colour_red}
use catalogger.Base.{
  nat_eq, if◌then◌else◌, ◌==◌, Result, ok, err, bytes, text_eq, ℕ, String, Bool, true, false,
  Option, none, some, List, [], ◌∷◌, ◌++◌,
}
use catalogger.Discord.{Discord, Invite, User, Embed, EmbedField}
use catalogger.Db.Crypt.{Text}
use catalogger.Store.Server.{Redis, Json}
use catalogger.Store.Redis.{invites, set_invites}

pub record InviteWorld : Type 0 where
  pub discord : Discord
  -- `bot.ShouldLog()` and the time of the event
  pub should_log : Bool
  pub now : ℕ
  pub show : ℕ → Text
  pub mention_user : User → Text
  pub mention_channel_id : ℕ → Text
  -- the Unix time, in seconds, at which something of this age ends
  pub unix_after : ℕ → ℕ
  pub json : Json (List Invite)

-- the store, and the guilds and embeds of the calls of `bot.Send`, the last first
pub record InviteLogs (R : Type 0) : Type 0 where
  pub store : R
  pub sent : List (ℕ × Embed)

-- an event with the answer of Discord to the request for the guild's invites that it makes
pub data InviteEvent : Type 0 where
  -- the guild, the invite and its maximal age, where 0 is none
  created : ℕ → Invite → ℕ → Result (List Invite) → InviteEvent
  -- the guild, the channel and the code
  deleted : ℕ → ℕ → Text → Result (List Invite) → InviteEvent

module _ (w : InviteWorld) where
  abbrev pub max_uses : ℕ → Text
  max_uses n = if n == 0 then bytes "Infinite" else w.show n

  abbrev pub expires : ℕ → Text
  expires age =
      if age == 0 then bytes "Never" else bytes "<t:" ++ w.show (w.unix_after age) ++ bytes ">"

  abbrev pub inviter_field : User → EmbedField
  inviter_field u = record {
    name = bytes "Created by";
    value = w.mention_user u ++ bytes "\n" ++ u.tag ++ bytes "\nID: " ++ w.show u.id;
    inline = false;
  }

  abbrev pub inline_field : String → Text → EmbedField
  inline_field name value = record { name = bytes name; value = value; inline = true }

  unfoldable pub invite_created_embed : Invite → ℕ → Embed
  invite_created_embed inv age = record {
    title = bytes "Invite created";
    description =
        bytes "A new invite (**"
        ++ inv.code
        ++ bytes "**) was created for "
        ++ w.mention_channel_id inv.channel_id
        ++ bytes ".";
    color = colour_green;
    author = none;
    fields =
        inviter_field inv.inviter
        ∷ inline_field "Maximum uses" (max_uses inv.max_uses)
        ∷ inline_field "Expires" (expires age)
        ∷ [];
    footer = inv.code;
    timestamp = w.now;
  }

  -- the channel and the code are the event's, the rest is the cached invite's
  unfoldable pub invite_deleted_embed : ℕ → Text → Invite → Embed
  invite_deleted_embed channel code inv = record {
    title = bytes "Invite deleted";
    description =
        bytes "An invite (**"
        ++ code
        ++ bytes "**) was deleted in "
        ++ w.mention_channel_id channel
        ++ bytes ".";
    color = colour_red;
    author = none;
    fields =
        inviter_field inv.inviter
        ∷ inline_field "Uses" (w.show inv.uses)
        ∷ inline_field "Maximum uses" (max_uses inv.max_uses)
        ∷ [];
    footer = code;
    timestamp = w.now;
  }

-- the loop over the cached invites
abbrev pub find_invite : Text → List Invite → Option Invite
find_invite code [] = none
find_invite code (i ∷ is) =
    let more = find_invite code is in if text_eq i.code code then some i else more

module _ (w : InviteWorld) (r : Redis) where
  -- the deferred call
  abbrev pub update_invites : ℕ → Result (List Invite) → InviteLogs r.State → InviteLogs r.State
  update_invites guild (err e) st = st
  update_invites guild (ok inv) st = record st {
    store = (set_invites w.discord r w.json st.store guild inv).1;
  }

  abbrev pub send_invite : ℕ → Embed → InviteLogs r.State → InviteLogs r.State
  send_invite guild e st = record st { sent = (guild, e) ∷ st.sent }

  unfoldable pub invite_create :
      ℕ → Invite → ℕ → Result (List Invite) → InviteLogs r.State → InviteLogs r.State
  invite_create guild inv age answer st =
      update_invites guild answer
        (if w.should_log then send_invite guild (invite_created_embed w inv age) st else st)

  abbrev pub log_found : ℕ → ℕ → Text → Option Invite → InviteLogs r.State → InviteLogs r.State
  log_found guild channel code none st = st
  log_found guild channel code (some inv) st =
      send_invite guild (invite_deleted_embed w channel code inv) st

  abbrev pub log_cached :
      ℕ → ℕ → Text → Result (List Invite) → InviteLogs r.State → InviteLogs r.State
  log_cached guild channel code (err e) st = st
  log_cached guild channel code (ok invs) st =
      log_found guild channel code (find_invite code invs) st

  unfoldable pub invite_delete :
      ℕ → ℕ → Text → Result (List Invite) → InviteLogs r.State → InviteLogs r.State
  invite_delete guild channel code answer st = update_invites guild answer (
      if w.should_log
      then log_cached guild channel code (invites w.discord r w.json st.store guild) st
      else st)

  unfoldable pub handle_invite : InviteEvent → InviteLogs r.State → InviteLogs r.State
  handle_invite (created guild inv age answer) st = invite_create guild inv age answer st
  handle_invite (deleted guild channel code answer) st = invite_delete guild channel code answer st

  unfoldable pub handle_invites : List InviteEvent → InviteLogs r.State → InviteLogs r.State
  handle_invites [] st = st
  handle_invites (v ∷ vs) st = handle_invites vs (handle_invite v st)
