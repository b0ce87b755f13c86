-- ===== src/Logging/Update.antt =====
-- logging/messages/message_update.go: the handler of an edited message. What is only written to the
-- program's own log is left out, as is an author's icon in the embed.

pub mod Storing
mod Tests
pub mod Sending
use catalogger.Common.Colours.{colour_purple}
use catalogger.Base.{
  nat_eq, leb, if◌then◌else◌, length, contains, Result, ok, err, bytes, text_eq, is_empty, ℕ, ◌/◌,
  Bool, true, false, not, ◌||◌, Option, none, some, List, [], ◌∷◌, ◌++◌,
}
use catalogger.Db.Rows.{Message, or_none}
use catalogger.Db.Messages.{get_message, insert_message, is_message_ignored}
use catalogger.Db.Guilds as Guilds
use catalogger.Db.Channels.{Channels}
use catalogger.Db.Crypt.{Text}
use catalogger.Bot.Users.{guild_user}
use catalogger.Store.Memory.Channels.{channel, root_channel}
use catalogger.Discord.{Channel, User, EmbedField, Embed, PostedMessage, File}
use catalogger.Logging.Routing.{is_root_ignored, is_user_ignored, log_channel}
use catalogger.Logging.Split.{field, old_fields, new_fields}
use catalogger.Logging.State.{Logs, World}
use catalogger.Logging.Delete.{is_thread, id_line, has_pk, user_field, pk_fields, deliver}

-- a zero-width space
abbrev pub zero_width : Text
zero_width = 226 ∷ 128 ∷ 139 ∷ []

-- the channel that `Cabinet.Channel` returns beside an error
abbrev pub no_channel : Channel
no_channel = record { id = 0; type = 0; parent_id = 0; name = [] }

module _ (w : World) where
  abbrev pub plain_value : ℕ → Text
  plain_value id = w.writing.mention_channel_id id ++ id_line w id

  abbrev pub if_thread : ℕ → Channel → Text
  if_thread id ch =
      if is_thread w.discord ch
      then w.writing.mention_channel_id ch.parent_id
        ++ id_line w ch.parent_id
        ++ bytes "\n\nThread: "
        ++ ch.name
        ++ bytes " ("
        ++ w.writing.mention_channel ch
        ++ bytes ")"
      else plain_value id

  -- `if channel, err := ...; err != nil`
  abbrev pub update_channel_value : ℕ → Result Channel → Text
  update_channel_value id (ok ch) = plain_value id
  update_channel_value id (err e) = if_thread id no_channel

  abbrev pub linked_field : ℕ → Result User → EmbedField
  linked_field user (ok u) = user_field w true u
  linked_field user (err e) = record {
    name = bytes "Linked Discord account";
    value = w.writing.mention_user_id user ++ id_line w user;
    inline = true;
  }

  -- `account` is the answer about the linked account of a message that has PluralKit's information
  abbrev pub sender_field : PostedMessage → Message → Option (Result User) → EmbedField
  sender_field ev old (some account) = linked_field old.user_id account
  sender_field ev old none = record (user_field w false ev.author) { name = bytes "Sender" }

  abbrev pub update_title : PostedMessage → Option (Result User) → Text
  update_title ev none = bytes "Message updated"
  update_title ev (some r) = bytes "Message by " ++ ev.author.username ++ bytes " updated"

  abbrev pub update_author : PostedMessage → Option (Result User) → Text
  update_author ev (some (ok u)) = u.tag
  update_author ev _ = ev.author.tag

  abbrev pub link_field : PostedMessage → EmbedField
  link_field ev = record {
    name = bytes "Link";
    value =
        bytes "https://discord.com/channels/"
        ++ w.writing.show ev.guild_id
        ++ bytes "/"
        ++ w.writing.show ev.channel_id
        ++ bytes "/"
        ++ w.writing.show ev.id;
    inline = false;
  }

  unfoldable pub message_embed : PostedMessage → Message → Option (Result User) → Embed
  message_embed ev old account = record {
    title = update_title ev account;
    description = [];
    color = colour_purple;
    author = some (update_author ev account);
    fields =
        old_fields old.content
        ++ (record { name = zero_width; value = zero_width; inline = false } ∷ [])
        ++ new_fields ev.content
        ++ (record {
          name = bytes "Channel";
          value = update_channel_value ev.channel_id (channel w.cabinet ev.channel_id);
          inline = true;
        }
            ∷ sender_field ev old account
            ∷ [])
        ++ pk_fields w old.system old.member
        ++ (link_field ev ∷ []);
    footer = bytes "ID: " ++ w.writing.show ev.id;
    timestamp = w.writing.time ev.id;
  }

  abbrev pub content_files : Text → Text → List File
  content_files new old =
      if leb 2000 (length new) || leb 2000 (length old)
      then record { name = bytes "before.txt"; contents = old }
        ∷ record { name = bytes "after.txt"; contents = new }
        ∷ []
      else []

  abbrev pub send_with :
      PostedMessage → Channels → Channel → Message → Option (Result User) → Logs → Logs
  send_with ev lc root old account st =
      deliver w ev.guild_id (log_channel w.discord lc.channels.message_update lc ev.channel_id root)
        (message_embed ev old account) (content_files ev.content old.content) st

  -- from `embed :=` on; the user cache may change
  unfoldable pub send_edit : PostedMessage → Channels → Channel → Message → Logs → Logs
  send_edit ev lc root old st =
      let (found, users') =
        guild_user (w.member ev.guild_id old.user_id) (w.rest_user old.user_id) old.user_id
          st.users in
      if has_pk w old.system old.member
      then send_with ev lc root old (some found) (record st { users = users' })
      else send_with ev lc root old none st

  abbrev pub compared : PostedMessage → Channels → Channel → Result Message → Logs → Logs
  compared ev lc root (err e) st = st
  compared ev lc root (ok old) st =
      if text_eq old.content ev.content then st else send_edit ev lc root old st

  -- what stands between the `defer` and the end of the handler
  unfoldable pub log_edit : PostedMessage → Channels → Channel → Logs → Logs
  log_edit ev lc root st =
      let (found, db') = get_message w.services ev.id st.db in
      if w.should_log then compared ev lc root found (record st { db = db' }) else st

  -- the message that the deferred call inserts
  abbrev pub edited_message : PostedMessage → Message
  edited_message ev = record {
    id = ev.id;
    original_id = none;
    user_id = ev.author.id;
    channel_id = ev.channel_id;
    guild_id = ev.guild_id;
    content = or_none ev.content;
    username = ev.author.tag;
    member = none;
    system = none;
    metadata = none;
    attachment_size = 0;
  }

  -- the deferred call
  abbrev pub store_edit : PostedMessage → Logs → Logs
  store_edit ev st = record st { db = (insert_message w.services (edited_message ev) st.db).1 }

  abbrev pub edit_in_root : PostedMessage → Channels → Result Channel → Logs → Logs
  edit_in_root ev lc (err e) st = st
  edit_in_root ev lc (ok root) st =
      if is_root_ignored w.discord lc.ignores root
      then st
      else if contains lc.ignores.global_users ev.author.id
      then st
      else if is_user_ignored w.discord lc.ignores ev.channel_id root ev.author.id
      then st
      else store_edit ev (log_edit ev lc root st)

  unfoldable pub edit_in_guild : PostedMessage → Result Channels → Logs → Logs
  edit_in_guild ev (err e) st = st
  edit_in_guild ev (ok lc) st =
      if not (w.discord.is_valid lc.channels.message_update)
      then st
      else if contains lc.ignores.global_channels ev.channel_id
      then st
      else edit_in_root ev lc (root_channel w.discord w.cabinet ev.channel_id) st

  unfoldable pub edit_checked : PostedMessage → Result Bool → Logs → Logs
  edit_checked ev (err e) st = st
  edit_checked ev (ok true) st = st
  edit_checked ev (ok false) st =
      let (found, db') = Guilds.channels ev.guild_id st.db in
      edit_in_guild ev found (record st { db = db' })

  unfoldable pub message_update : PostedMessage → Logs → Logs
  message_update ev st =
      if not (w.discord.is_valid ev.guild_id) || not (w.discord.is_valid ev.author.id)
      then st
      else if is_empty ev.content
      then st
      else (let (ignored, db') = is_message_ignored ev.id st.db in
          edit_checked ev ignored (record st { db = db' }))
