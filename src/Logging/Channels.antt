-- ===== src/Logging/Channels.antt =====
-- logging/channels: the handler of created channels, over the store of channels in memory and any
-- store of roles. What libraries write and the time are arguments. An error of `SetChannel`, of which
-- there is none in memory, would only be written to the program's own log.
use catalogger.Common.Colours.{colour_green}
use catalogger.Base.{
  nat_eq, ltb, if◌then◌else◌, length, take, ◌==◌, Result, ok, err, bytes, ℕ, String, Bool, false,
  ◌||◌, none, List, [], ◌∷◌, ◌++◌,
}
pub mod Creation
mod Tests
use catalogger.Discord.{Discord, Channel, Role, User, Embed, EmbedField}
use catalogger.Db.Crypt.{Text}
use catalogger.Common.Permissions.{all_perms, perm_strings_for}
use catalogger.Store.Interface.{RoleStore}
use catalogger.Store.Memory.Channels.{Channels, channel, set_channel}
use catalogger.Bot.Users.{Users, guild_user}
use catalogger.Logging.Roles.{join}

-- arikawa's `Overwrite`: the role or the member with this identifier may and may not do something
pub record Overwrite : Type 0 where
  pub id : ℕ
  pub type : ℕ
  pub allow : ℕ
  pub deny : ℕ

pub record ChannelWorld : Type 0 where
  pub discord : Discord
  pub overwrite_role : ℕ
  pub overwrite_member : ℕ
  -- the library's bit masks of permissions
  pub constant : String → ℕ
  -- `bot.ShouldLog()` and the time of the event
  pub should_log : Bool
  pub now : ℕ
  -- the member cache and Discord's API, on a user
  pub member : ℕ → ℕ → Result User
  pub rest_user : ℕ → Result User

-- the stores, and the guilds and embeds of the calls of `bot.Send`, the last first
pub record ChannelLogs (S : RoleStore) : Type 0 where
  pub channels : Channels
  pub roles : S.State
  pub users : Users
  pub sent : List (ℕ × Embed)

pub record ChannelCreate : Type 0 where
  pub guild_id : ℕ
  pub channel : Channel
  pub overwrites : List Overwrite

module _ (w : ChannelWorld) where
  -- `PermStrings`, joined
  abbrev pub perm_names : ℕ → Text
  perm_names p = join (perm_strings_for (all_perms w.constant) p)

  -- "✅ " and "❌ " in UTF-8
  unfoldable pub allow_line : ℕ → Text
  allow_line p = if p == 0 then [] else 226 ∷ 156 ∷ 133 ∷ 32 ∷ perm_names p

  unfoldable pub deny_line : ℕ → Text
  deny_line p = if p == 0 then [] else 10 ∷ 10 ∷ 226 ∷ 157 ∷ 140 ∷ 32 ∷ perm_names p

  abbrev pub channel_title : ℕ → Text
  channel_title type =
      if type == w.discord.guild_voice
      then bytes "Voice channel created"
      else if type == w.discord.guild_category
      then bytes "Category channel created"
      else if type == w.discord.guild_text || type == w.discord.guild_announcement
      then bytes "Text channel created"
      else bytes "Channel created"

  abbrev pub described : Text → Result Channel → Text
  described name (err e) = []
  described name (ok cat) = bytes "**Name:** " ++ name ++ bytes "\n**Category:** " ++ cat.name

  abbrev pub channel_description : Channels → Channel → Text
  channel_description s ch =
      if w.discord.is_valid ch.parent_id
      then described ch.name (channel s ch.parent_id)
      else bytes "**Name:** " ++ ch.name ++ bytes "\n**Category:** None"

  abbrev pub override_name : Overwrite → Text
  override_name p = bytes "Override for " ++ bytes (w.discord.show p.id)

  abbrev pub role_name : Overwrite → Result Role → Text
  role_name p (ok r) = bytes "Role override for " ++ r.name
  role_name p (err e) = override_name p

  abbrev pub member_name : Overwrite → Result User → Text
  member_name p (ok u) = bytes "Member override for " ++ u.tag
  member_name p (err e) = override_name p

  abbrev pub override_field : Overwrite → Text → EmbedField
  override_field p name = record {
    name = name;
    value = allow_line p.allow ++ deny_line p.deny;
    inline = false;
  }

module _ (S : RoleStore) (w : ChannelWorld) where
  -- the body of the loop over the overwrites; the user cache may change
  abbrev pub override : ℕ → S.State → Overwrite → Users → EmbedField × Users
  override guild roles p users =
      let (found, users') = guild_user (w.member guild p.id) (w.rest_user p.id) p.id users in
      if p.type == w.overwrite_role
      then (override_field w p (role_name w p (S.role roles guild p.id)), users)
      else if p.type == w.overwrite_member
      then (override_field w p (member_name w p found), users')
      else (override_field w p (override_name w p), users)

  unfoldable pub overrides : ℕ → S.State → List Overwrite → Users → List EmbedField × Users
  overrides guild roles [] users = ([], users)
  overrides guild roles (p ∷ ps) users =
      let (field, users') = override guild roles p users in
      let (fields, users'') = overrides guild roles ps users' in (field ∷ fields, users'')

  -- `if len(e.Fields) > 24`
  abbrev pub cut_fields : List EmbedField → List EmbedField
  cut_fields fields = if ltb 24 (length fields) then take 24 fields else fields

  abbrev pub channel_embed : Channels → Channel → List EmbedField → Embed
  channel_embed s ch fields = record {
    title = channel_title w ch.type;
    description = channel_description w s ch;
    color = colour_green;
    author = none;
    fields = cut_fields fields;
    footer = bytes "ID: " ++ bytes (w.discord.show ch.id);
    timestamp = w.now;
  }

  -- what stands between the `defer` and the end of the handler
  unfoldable pub log_created : ChannelCreate → ChannelLogs S → ChannelLogs S
  log_created ev st =
      let (fields, users') = overrides ev.guild_id st.roles ev.overwrites st.users in
      if w.should_log
      then record st {
        users = users';
        sent = (ev.guild_id, channel_embed st.channels ev.channel fields) ∷ st.sent;
      }
      else st

  -- the deferred call
  abbrev pub keep_channel : ChannelCreate → ChannelLogs S → ChannelLogs S
  keep_channel ev st = record st { channels = set_channel st.channels ev.guild_id ev.channel }

  unfoldable pub channel_create : ChannelCreate → ChannelLogs S → ChannelLogs S
  channel_create ev st = keep_channel ev (log_created ev st)

  unfoldable pub channel_creates : List ChannelCreate → ChannelLogs S → ChannelLogs S
  channel_creates [] st = st
  channel_creates (ev ∷ evs) st = channel_creates evs (channel_create ev st)
