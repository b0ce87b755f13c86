-- ===== src/Logging/Create/Storing.antt =====
-- The database after the handlers of a new message (logging/messages/message_create.go).
use catalogger.Logging.Create.{
  new_metadata, pk_bots, created_message, stores_messages, inserted, create_in_guild,
  message_create, pk_message_create, Patterns,
}
use catalogger.Db.Messages.Proxied.{get_message-update_pk_info, proxied_message}
use catalogger.Db.Messages.Lookup.{get_message-delete_message}
use catalogger.Db.Messages.{update_pk_info, delete_message, insert_message, get_message}
use catalogger.Base.{
  nat_eq, ltb, if◌then◌else◌, Option-cases, length, ◌==◌, contains, wrap, Result, sentinel, wrapped,
  ok, err, bytes, is_empty, ℕ, ◌≡◌, refl, sym, ap, ◌∙◌, inl, inr, Bool, true, false, ◌||◌, Option,
  none, some, List, [], ◌∷◌, arith,
}
use catalogger.Logging.Delete.Forgetting.{forget-gone}
use catalogger.Logging.State.{Logs, World}
use catalogger.Db.Messages.RoundTrip.{healthy, get_message-insert_message}
use catalogger.Db.Rows.{Message, Metadata, or_none}
use catalogger.Db.Guilds as Guilds
use catalogger.Db.Channels.{Channels}
use catalogger.Db.Tables.{Db}
use catalogger.Db.Crypt.{Text}
use catalogger.Discord.{PostedMessage, Embed, User}
use catalogger.Base.GoMap

module _ (w : World) (m : PostedMessage) where
  create_in_guild-db :
      (chs : Channels) (st : Logs)
      → stores_messages w chs ≡ true
      → (create_in_guild w m (ok chs) st).0.db
        ≡ (insert_message w.services (created_message w m) st.db).1
  create_in_guild-db chs st on =
      rw (on) (by_done (insert_message w.services (created_message w m) st.db).0 _)
    where
      by_done : (r : Result (Unit {0})) (s : Logs) → (inserted w m r s).0.db ≡ s.db
      by_done (err e) s = refl
      by_done (ok u) s = refl

  pub message_create-db :
      (chs : Channels) (st : Logs)
      → w.discord.is_valid m.guild_id ≡ true
      → st.db ≡ healthy st.db
      → GoMap.get st.db.guilds m.guild_id ≡ some chs
      → stores_messages w chs ≡ true
      → (message_create w m st).0.db ≡ (insert_message w.services (created_message w m) st.db).1
  unfolding message_create Guilds.channels
  message_create-db chs st valid h there on =
      ap (λ d. (message_create w m (record st { db = d })).0.db) h
      ∙ rw (valid) (
          ap (λ o. (create_in_guild w m (wrap "getting channels" (Guilds.scan o)) s).0.db) there
          ∙ create_in_guild-db chs s on)
      ∙ ap (λ d. (insert_message w.services (created_message w m) d).1) (sym h)
    where
      s : Logs
      s = record st { db = healthy st.db }

-- an independent description of the metadata: the name and picture of a webhook, or else the embeds
abbrev pub kept_metadata : Bool → List Embed → User → Option Metadata
kept_metadata true es user =
    some (record {
      user_id = some user.id;
      username = user.username;
      avatar = user.avatar;
      embeds = [];
    })
kept_metadata false [] user = none
kept_metadata false (e ∷ es) user =
    some (record { user_id = none; username = []; avatar = []; embeds = e ∷ es })

new_metadata-kept :
    (w : World) (m : PostedMessage)
    → new_metadata w m ≡ kept_metadata (w.discord.is_valid m.webhook_id) m.embeds m.author
new_metadata-kept w m = by_cases (w.discord.is_valid m.webhook_id) m.embeds
  where
    not_empty : (e : Embed) (es : List Embed) → ltb 0 (length (e ∷ es)) ≡ true
    not_empty e es = ground arith

    by_cases :
        (b : Bool) (es : List Embed)
        → (if ltb 0 (length es) || b
            then some (
                if b
                then record {
                  user_id = some m.author.id;
                  username = m.author.username;
                  avatar = m.author.avatar;
                  embeds = [];
                }
                else record { user_id = none; username = []; avatar = []; embeds = es })
            else none)
          ≡ kept_metadata b es m.author
    by_cases true [] = refl
    by_cases true (e ∷ es) = rw (not_empty e es) refl
    by_cases false [] = refl
    by_cases false (e ∷ es) = rw (not_empty e es) refl

-- A new message in a valid guild where the log of edits, of deletions or of bulk deletions goes to a valid
-- channel is stored: if its identifier is new, the database meets no fault and encrypting succeeds, a lookup
-- returns its author, place and content ("None" if it is empty), the name and picture of its webhook if it
-- has one and else its embeds, and the size of the attachments as 0.
pub get_message-message_create :
    (w : World) (m : PostedMessage) (chs : Channels) (st : Logs)
    → w.discord.is_valid m.guild_id ≡ true
    → st.db ≡ healthy st.db
    → GoMap.get st.db.guilds m.guild_id ≡ some chs
    → (w.discord.is_valid chs.channels.message_update
        || w.discord.is_valid chs.channels.message_delete
        || w.discord.is_valid chs.channels.message_delete_bulk)
      ≡ true
    → GoMap.get st.db.messages m.id ≡ none
    → (insert_message w.services (created_message w m) st.db).0 ≡ ok tt
    → (get_message w.services m.id (healthy (message_create w m st).0.db)).0
      ≡ ok (record {
        id = m.id;
        original_id = none;
        user_id = m.author.id;
        channel_id = m.channel_id;
        guild_id = m.guild_id;
        content = if is_empty m.content then bytes "None" else m.content;
        username = m.author.tag;
        member = none;
        system = none;
        metadata = kept_metadata (w.discord.is_valid m.webhook_id) m.embeds m.author;
        attachment_size = 0;
      })
get_message-message_create w m chs st valid h there on fresh done =
    ap (λ d. (get_message w.services m.id (healthy d)).0)
      (message_create-db w m chs st valid h there on)
    ∙ get_message-insert_message w.services (created_message w m) st.db fresh done
    ∙ ap (λ t. ok (record (created_message w m) { content = t; attachment_size = 0 }))
        (or_none_twice m.content)
    ∙ ap
        (λ d. ok (record (created_message w m) {
          content = or_none m.content;
          metadata = d;
          attachment_size = 0;
        }))
        (new_metadata-kept w m)
  where
    or_none_twice : (t : Text) → or_none (or_none t) ≡ or_none t
    or_none_twice [] = refl
    or_none_twice (b ∷ bs) = refl

update_pk_info-healthy :
    (msg original user : ℕ) (system member : Text) (db : Db)
    → (update_pk_info msg original user system member (healthy db)).1
      ≡ healthy (update_pk_info msg original user system member (healthy db)).1
unfolding update_pk_info
update_pk_info-healthy msg original user system member db =
    elim (Option-cases (GoMap.get db.messages msg)) [
      | inl missing ↦ rw (missing) refl
      | inr (row, there) ↦ rw (there) refl
    ]

delete_message-ok : (id : ℕ) (db : Db) → (delete_message id (healthy db)).0 ≡ ok tt
unfolding delete_message
delete_message-ok id db = refl

pk_message_create-runs :
    (w : World) (p : Patterns) (m : PostedMessage) (embed : Embed) (embeds : List Embed)
    (whole system member user msg original : Text) (more : List Text) (st : Logs)
    → contains pk_bots m.author.id ≡ true
    → p.is_link m.content ≡ true
    → m.embeds ≡ embed ∷ embeds
    → p.footer_groups embed.footer ≡ whole ∷ system ∷ member ∷ user ∷ msg ∷ original ∷ more
    → (pk_message_create w p m st).db
      ≡ (delete_message
          (p.parse_snowflake original)
          (update_pk_info
            (p.parse_snowflake msg)
            (p.parse_snowflake original)
            (p.parse_snowflake user)
            system
            member
            st.db).1).1
unfolding pk_message_create
pk_message_create-runs w p m embed embeds whole system member user msg original more st bot link
      first groups =
    rw (bot, link, first, groups) refl

-- PluralKit's own log message marks the message that it names: on a database that meets no fault, a
-- lookup then returns that message with the account, the original message, the system and the member
-- that the log message names, and the original message is gone.
pub get_message-pk_message_create :
    (w : World) (p : Patterns) (m : PostedMessage) (embed : Embed) (embeds : List Embed)
    (whole system member user msg original : Text) (more : List Text) (st : Logs) (old : Message)
    → contains pk_bots m.author.id ≡ true
    → p.is_link m.content ≡ true
    → m.embeds ≡ embed ∷ embeds
    → p.footer_groups embed.footer ≡ whole ∷ system ∷ member ∷ user ∷ msg ∷ original ∷ more
    → st.db ≡ healthy st.db
    → (p.parse_snowflake original == p.parse_snowflake msg) ≡ false
    → (get_message w.services (p.parse_snowflake msg) st.db).0 ≡ ok old
    → ((get_message w.services (p.parse_snowflake msg) (healthy (pk_message_create w p m st).db)).0
        ≡ ok (
            proxied_message old
              (p.parse_snowflake original)
              (p.parse_snowflake user)
              system
              member))
      × (GoMap.get (pk_message_create w p m st).db.messages (p.parse_snowflake original) ≡ none)
unfolding update_pk_info
get_message-pk_message_create w p m embed embeds whole system member user msg original more st old
      bot link first groups h different before =
    (
      ap (λ d. (get_message w.services msg_id (healthy d)).0) runs
          ∙ get_message-delete_message w.services id msg_id marked (deletes marked marked_healthy)
          ∙ ap
              (λ b.
                if b
                then err (wrapped "getting from database" (sentinel "no row was found"))
                else (get_message w.services msg_id (healthy marked)).0)
              different
          ∙ get_message-update_pk_info w.services msg_id id user_id system member old
              (healthy st.db) (ap (λ d. (get_message w.services msg_id d).0) (sym h) ∙ before) refl,
      ap (λ d. GoMap.get d.messages id) runs
          ∙ forget-gone w id (record st { db = marked }) marked_healthy,
    )
  where
    id : ℕ
    id = p.parse_snowflake original

    msg_id : ℕ
    msg_id = p.parse_snowflake msg

    user_id : ℕ
    user_id = p.parse_snowflake user

    marked : Db
    marked = (update_pk_info msg_id id user_id system member (healthy st.db)).1

    marked_healthy : marked ≡ healthy marked
    marked_healthy = update_pk_info-healthy msg_id id user_id system member st.db

    deletes : (d : Db) → d ≡ healthy d → (delete_message id d).0 ≡ ok tt
    deletes d k = ap (λ x. (delete_message id x).0) k ∙ delete_message-ok id d

    runs : (pk_message_create w p m st).db ≡ (delete_message id marked).1
    runs =
        ap (λ d. (pk_message_create w p m (record st { db = d })).db) h
        ∙ pk_message_create-runs w p m embed embeds whole system member user msg original more
            (record st { db = healthy st.db }) bot link first groups
