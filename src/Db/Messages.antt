-- ===== src/Db/Messages.antt =====
-- db/message.go: the statements on the stored messages.
mod Inversion
pub mod RoundTrip
pub mod Lookup
pub mod Proxied
use catalogger.Base.GoMap
use catalogger.Base.{
  nat_eq, if◌then◌else◌, ◌==◌, contains, wrap, Result, sentinel, ok, err, ℕ, String, Bool, true,
  false, ◌&&◌, ◌||◌, Option, none, some, List, [], ◌∷◌,
}
use catalogger.Discord.{Embed}
use catalogger.Db.Crypt.{Text, Crypto, encrypt, decrypt}
use catalogger.Db.Rows.{Message, Metadata, Services, or_none, open_row}
use catalogger.Db.Tables.{Action, ◌>>=◌, pure, lift, wrapping, statement, next_draw, Row, Db}

module _ (s : Services) where
  unfoldable pub seal : String → Text → Action Text
  seal what plaintext = do
    draw ← next_draw
    lift (wrap what (encrypt s.crypto draw plaintext s.aes_key))

  unfoldable pub seal_metadata : Option Metadata → Action (Option Text)
  unfolding seal
  seal_metadata none = pure none
  seal_metadata (some md) = do
    jsonb ← lift (wrap "marshaling metadata" (s.marshal md))
    b ← seal "encrypting metadata" jsonb
    pure (some b)

-- `on conflict (id) do update set content = $5`; the columns that the statement does not name have
-- their defaults in a new row.
abbrev pub upsert : Option Row → Message → Text → Text → Option Text → Row
upsert none m content username metadata = record {
  original_id = none;
  user_id = m.user_id;
  channel_id = m.channel_id;
  guild_id = m.guild_id;
  username = username;
  member = m.member;
  system = m.system;
  content = content;
  metadata = metadata;
  attachment_size = 0;
}
upsert (some row) m content username metadata = record row { content = content }

-- no row, or more than one, is an error; the key is unique
abbrev one_row : Option Row → Result Row
one_row none = err (sentinel "no row was found")
one_row (some row) = ok row

abbrev pub put_row : Db → ℕ → Row → Db
put_row db id row = record db { messages = GoMap.put db.messages id row }

module _ (s : Services) where
  unfoldable pub insert_message : Message → Action (Unit {0})
  unfolding seal seal_metadata
  insert_message m = do
    content ← seal s "encrypting content" (or_none m.content)
    username ← seal s "encrypting username" m.username
    metadata ← seal_metadata s m.metadata
    statement (λ db.
        (tt, put_row db m.id (upsert (GoMap.get db.messages m.id) m content username metadata)))

  unfoldable pub get_message : ℕ → Action Message
  get_message id = do
    found ←
        wrapping "getting from database"
          (do row ← statement (λ db. (GoMap.get db.messages id, db)); lift (one_row row))
    lift (open_row s id found)

-- `UPDATE` and `DELETE` of a message without a row change nothing.
abbrev pub update_row : Db → ℕ → Option Row → (Row → Row) → Db
update_row db id none change = db
update_row db id (some row) change = put_row db id (change row)

unfoldable pub update_pk_info : ℕ → ℕ → ℕ → Text → Text → Action (Unit {0})
update_pk_info msg original user system member = statement (λ db. (
  tt,
  update_row db msg (GoMap.get db.messages msg) (λ row. record row {
    original_id = some original;
    user_id = user;
    system = some system;
    member = some member;
  }),
))

unfoldable pub update_user_id : ℕ → ℕ → Action (Unit {0})
update_user_id msg user = statement (λ db.
    (tt, update_row db msg (GoMap.get db.messages msg) (λ row. record row { user_id = user })))

abbrev pub is_some' : Option Text → Bool
is_some' none = false
is_some' (some t) = true

abbrev pub is_original : Option ℕ → ℕ → Bool
is_original none id = false
is_original (some o) id = o == id

-- the `where` of `HasPKInfo`, for a row with its key
abbrev pub has_info : ℕ → ℕ → Row → Bool
has_info id key row =
    (is_some' row.system && is_some' row.member) && (key == id || is_original row.original_id id)

any_row : ℕ → GoMap.GoMap ℕ Row → Bool
any_row id [] = false
any_row id ((key, row) ∷ rows) = has_info id key row || any_row id rows

-- an error counts as false
ok_true : Result Bool → Bool
ok_true (ok b) = b
ok_true (err e) = false

unfoldable pub has_pk_info : ℕ → Db → Bool × Db
unfolding any_row ok_true
has_pk_info msg db =
    let (r, db') = statement (λ d. (any_row msg d.messages, d)) db in (ok_true r, db')

unfoldable pub delete_message : ℕ → Action (Unit {0})
delete_message id =
    wrapping "executing query"
      (statement (λ db. (tt, record db { messages = GoMap.del db.messages id })))

abbrev pub add_ignored : List ℕ → ℕ → List ℕ
add_ignored ids id = if contains ids id then ids else id ∷ ids

unfoldable pub ignore_message : ℕ → Action (Unit {0})
ignore_message id =
    wrapping "executing query"
      (statement (λ db. (tt, record db { ignored_messages = add_ignored db.ignored_messages id })))

unfoldable pub is_message_ignored : ℕ → Action Bool
is_message_ignored id =
    wrapping "executing query" (statement (λ db. (contains db.ignored_messages id, db)))
