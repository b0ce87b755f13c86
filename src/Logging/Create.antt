-- ===== src/Logging/Create.antt =====
-- logging/messages/message_create.go: the handler that stores a new message, and the one that reads
-- PluralKit's own log of a proxied message. Both are called for every new message. The first one
-- sleeps for a second before its last check, and other handlers run meanwhile: it is two functions,
-- the first of which also says whether the handler goes on after the sleep. The regular expressions
-- and `ParseSnowflake` are parameters. What is only written to the program's own log is left out.
pub mod Storing
pub mod Sample
mod Tests
use catalogger.Base.{
  nat_eq, ltb, if◌then◌else◌, length, contains, Result, ok, err, ℕ, ◌+◌, ◌%◌, ◌^◌, Bool, false, not,
  ◌||◌, Option, none, some, List, [], ◌∷◌,
}
use catalogger.Db.Tables.{Db}
use catalogger.Db.Rows.{Message, Metadata, or_none}
use catalogger.Db.Messages.{insert_message, update_pk_info, delete_message}
use catalogger.Db.Guilds as Guilds
use catalogger.Db.Channels.{Channels}
use catalogger.Db.Crypt.{Text}
use catalogger.Discord.{Embed, PostedMessage}
use catalogger.Common.Set as Set
use catalogger.Logging.State.{Logs, World}

-- What the handlers take from `regexp` and from arikawa.
pub record Patterns : Type 0 where
  -- `pkLinkRegex.MatchString` and `pkFooterRegex.FindStringSubmatch`
  pub is_link : Text → Bool
  pub footer_groups : Text → List Text
  -- the first result of `ParseSnowflake`
  pub parse_snowflake : Text → ℕ

abbrev pub pk_bots : List ℕ
pk_bots = 466378653216014359 ∷ []

-- a sum of `uint64`s
abbrev pub add_sizes : ℕ → List ℕ → ℕ
add_sizes total [] = total
add_sizes total (size ∷ sizes) = add_sizes ((total + size) % 2 ^ 64) sizes

module _ (w : World) where
  abbrev pub new_metadata : PostedMessage → Option Metadata
  new_metadata m =
      if ltb 0 (length m.embeds) || w.discord.is_valid m.webhook_id
      then some (
          if w.discord.is_valid m.webhook_id
          then record {
            user_id = some m.author.id;
            username = m.author.username;
            avatar = m.author.avatar;
            embeds = [];
          }
          else record { user_id = none; username = []; avatar = []; embeds = m.embeds })
      else none

  abbrev pub created_message : PostedMessage → Message
  created_message m = record {
    id = m.id;
    original_id = none;
    user_id = m.author.id;
    channel_id = m.channel_id;
    guild_id = m.guild_id;
    content = or_none m.content;
    username = m.author.tag;
    member = none;
    system = none;
    metadata = new_metadata m;
    attachment_size = add_sizes 0 m.attachment_sizes;
  }

  -- one of the logs that need stored messages is on
  abbrev pub stores_messages : Channels → Bool
  stores_messages chs =
      w.discord.is_valid chs.channels.message_update
      || w.discord.is_valid chs.channels.message_delete
      || w.discord.is_valid chs.channels.message_delete_bulk

  -- what the insertion returns decides whether the handler goes on
  abbrev pub inserted : PostedMessage → Result (Unit {0}) → Logs → Logs × Bool
  inserted m (err e) st = (st, false)
  inserted m (ok u) st = (st, contains pk_bots m.application_id)

  abbrev pub create_in_guild : PostedMessage → Result Channels → Logs → Logs × Bool
  create_in_guild m (err e) st = (st, false)
  create_in_guild m (ok chs) st =
      let (done, db') = insert_message w.services (created_message m) st.db in
      if stores_messages chs then inserted m done (record st { db = db' }) else (st, false)

  unfoldable pub message_create : PostedMessage → Logs → Logs × Bool
  message_create m st =
      let (found, db') = Guilds.channels m.guild_id st.db in
      if w.discord.is_valid m.guild_id
      then create_in_guild m found (record st { db = db' })
      else (st, false)

  -- after the sleep
  unfoldable pub message_create_woken : ℕ → Logs → Logs
  message_create_woken id st =
      if Set.exists st.handled_messages id
      then record st { handled_messages = (Set.remove st.handled_messages id).0 }
      else st

module _ (w : World) (p : Patterns) where
  -- from `groups` on: the first group is the whole match
  abbrev pub pk_groups : List Text → Logs → Logs
  pk_groups (whole ∷ system ∷ member ∷ user ∷ msg ∷ original ∷ more) st =
      let original_id = p.parse_snowflake original in
      let msg_id = p.parse_snowflake msg in
      let db' =
        (update_pk_info msg_id original_id (p.parse_snowflake user) system member st.db).1 in
      record st {
        proxy_triggers = (Set.add st.proxy_triggers original_id).0;
        db = (delete_message original_id db').1;
        handled_messages = (Set.add st.handled_messages msg_id).0;
      }
  pk_groups _ st = st

  -- An embed without a footer has an empty one here, which the expression does not match.
  abbrev pub pk_embeds : List Embed → Logs → Logs
  pk_embeds [] st = st
  pk_embeds (e ∷ es) st = pk_groups (p.footer_groups e.footer) st

  unfoldable pub pk_message_create : PostedMessage → Logs → Logs
  pk_message_create m st =
      if not (contains pk_bots m.author.id)
      then st
      else if not (p.is_link m.content)
      then st
      else pk_embeds m.embeds st
