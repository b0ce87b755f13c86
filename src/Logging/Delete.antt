-- ===== src/Logging/Delete.antt =====
-- logging/messages/message_delete.go: the handler of a deleted message. The waiting for the message
-- create handler changes no state and is left out, as is all that is only written to the program's own
-- log; an author's icon is left out of the embed.
pub mod Sending
pub mod Forgetting
mod Tests
use catalogger.Common.Colours.{colour_red}
use catalogger.Base.GoMap
use catalogger.Base.{
  nat_eq, string_eq, if◌then◌else◌, ◌==◌, contains, Result, ok, err, bytes, ℕ, Bool, true, false,
  not, ◌&&◌, ◌||◌, Option, some, List, [], ◌∷◌, ◌++◌,
}
use catalogger.Discord.{Discord, Channel, User, EmbedField, Embed, File}
use catalogger.Common.Set as Set
use catalogger.Db.Channels.{Channels}
use catalogger.Db.Crypt.{Text}
use catalogger.Db.Guilds as Guilds
use catalogger.Db.Tables.{Db}
use catalogger.Db.Rows.{Message}
use catalogger.Db.Messages.{get_message, update_pk_info, has_pk_info, delete_message}
use catalogger.Bot.Users.{guild_user}
use catalogger.Store.Memory.Channels.{channels, channel, root_channel}
use catalogger.Logging.Routing.{is_root_ignored, is_user_ignored, log_channel}
use catalogger.Logging.State.{Logs, PkMessage, World}

-- `common.IsThread`
abbrev pub is_thread : Discord → Channel → Bool
is_thread d ch =
    ch.type == d.guild_news_thread
    || ch.type == d.guild_private_thread
    || ch.type == d.guild_public_thread

module _ (w : World) where
  abbrev pub id_line : ℕ → Text
  id_line id = bytes "\nID: " ++ w.writing.show id

  abbrev pub channel_value : Channel → Channel → Text
  channel_value ch root =
      if is_thread w.discord ch
      then w.writing.mention_channel root
        ++ id_line root.id
        ++ bytes "\n\n**Thread**\n"
        ++ ch.name
        ++ id_line ch.id
      else w.writing.mention_channel ch ++ id_line ch.id

  abbrev pub has_pk : Option Text → Option Text → Bool
  has_pk (some s) (some m) = true
  has_pk _ _ = false

  abbrev pub user_field : Bool → User → EmbedField
  user_field pk u = record {
    name = if pk then bytes "Linked Discord account" else bytes "Author";
    value = w.writing.mention_user u ++ bytes "\n" ++ u.tag ++ id_line u.id;
    inline = true;
  }

  -- The name of the first field is a zero-width space.
  abbrev pub pk_fields : Option Text → Option Text → List EmbedField
  pk_fields (some s) (some m) =
      record {
        name = 226 ∷ 128 ∷ 139 ∷ [];
        value = bytes "**PluralKit information**";
        inline = false;
      }
      ∷ record { name = bytes "System ID"; value = s; inline = true }
      ∷ record { name = bytes "Member ID"; value = m; inline = true }
      ∷ []
  pk_fields _ _ = []

  unfoldable pub delete_embed : Message → User → Channel → Channel → Embed
  delete_embed m u ch root = record {
    title = bytes "Message by " ++ m.username ++ bytes " deleted";
    description = m.content;
    color = colour_red;
    author = some u.tag;
    fields =
        record { name = bytes "Channel"; value = channel_value ch root; inline = true }
        ∷ user_field (has_pk m.system m.member) u
        ∷ pk_fields m.system m.member;
    footer = bytes "ID: " ++ w.writing.show m.id;
    timestamp = w.writing.time m.id;
  }

  abbrev pub user_or_unknown : ℕ → Result User → User
  user_or_unknown id (ok u) = u
  user_or_unknown id (err e) = record {
    id = id;
    username = bytes "unknown";
    tag = bytes "unknown#0000";
    avatar = [];
  }

  abbrev pub channel_or_unknown : ℕ → Result Channel → Channel
  channel_or_unknown id (ok ch) = ch
  channel_or_unknown id (err e) = record {
    id = id;
    type = 0;
    parent_id = 0;
    name = bytes "unknown";
  }

  -- the log message, unless there is no valid channel for it
  unfoldable pub deliver : ℕ → ℕ → Embed → List File → Logs → Logs
  deliver guild target e files st =
      if w.discord.is_valid target
      then record st {
        sent = record { guild = guild; channel = target; embeds = e ∷ []; files = files } ∷ st.sent;
      }
      else st

  -- from "everything checks out" on; the user cache may change
  unfoldable pub send_delete : Message → Channels → Channel → Logs → Logs
  send_delete m lc root st =
      let (found, users') =
        guild_user (w.member m.guild_id m.user_id) (w.rest_user m.user_id) m.user_id st.users in
      deliver m.guild_id (log_channel w.discord lc.channels.message_delete lc m.channel_id root)
        (delete_embed m (user_or_unknown m.user_id found)
          (channel_or_unknown m.channel_id (channel w.cabinet m.channel_id)) root)
        [] (record st { users = users' })

  abbrev pub checked_root : Message → Channels → Result Channel → Logs → Logs
  checked_root m lc (err e) st = st
  checked_root m lc (ok root) st =
      if is_root_ignored w.discord lc.ignores root
      then st
      else if contains lc.ignores.global_users m.user_id
      then st
      else if is_user_ignored w.discord lc.ignores m.channel_id root m.user_id
      then st
      else send_delete m lc root st

  abbrev pub checked_message : Channels → Result Message → Logs → Logs
  checked_message lc (err e) st = st
  checked_message lc (ok m) st =
      if contains lc.ignores.global_channels m.channel_id
      then st
      else checked_root m lc (root_channel w.discord w.cabinet m.channel_id) st

  -- what stands between the `defer` and the end of the handler
  unfoldable pub log_message : ℕ → Channels → Logs → Logs
  log_message id lc st =
      if w.should_log
      then (let (found, db') = get_message w.services id st.db in
          checked_message lc found (record st { db = db' }))
      else st

  -- the deferred call
  abbrev pub forget : ℕ → Logs → Logs
  forget id st = record st { db = (delete_message id st.db).1 }

  abbrev pub with_channels : ℕ → Result Channels → Logs → Logs
  with_channels id (err e) st = st
  with_channels id (ok lc) st =
      if w.discord.is_valid lc.channels.message_delete then forget id (log_message id lc st) else st

  unfoldable pub after_pk : ℕ → ℕ → Logs → Logs
  after_pk guild id st =
      let (found, db') = Guilds.channels guild st.db in
      with_channels id found (record st { db = db' })

  abbrev pub save_proxied : ℕ → PkMessage → Option Text → Option Text → Logs → Logs
  save_proxied id pkm (some system) (some member) st =
      forget id (record st { db = (update_pk_info pkm.id id pkm.sender system member st.db).1 })
  save_proxied id pkm _ _ st = st

  abbrev pub pk_answered : ℕ → ℕ → Result PkMessage → Logs → Logs
  pk_answered guild id (err e) st = after_pk guild id st
  pk_answered guild id (ok pkm) st =
      if pkm.id == id then after_pk guild id st else save_proxied id pkm pkm.system pkm.member st

  unfoldable pub pk_checked : ℕ → ℕ → Logs → Logs
  pk_checked guild id st =
      let (has, db') = has_pk_info id st.db in
      if not has && w.before_soon id
      then pk_answered guild id (w.pk_message id) (record st { db = db' })
      else after_pk guild id (record st { db = db' })

  -- `guild` and `id` are the event's
  unfoldable pub message_delete : ℕ → ℕ → Logs → Logs
  message_delete guild id st =
      if not (w.discord.is_valid guild)
      then st
      else if Set.exists st.proxy_triggers id
      then record st { proxy_triggers = (Set.remove st.proxy_triggers id).0 }
      else pk_checked guild id st
