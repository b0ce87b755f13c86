-- ===== src/ImportDb/Old.antt =====
-- cmd/importdb/message.go: the messages of the old database, read in pages of 1000. The old table is
-- the list of its rows in the order of their identifiers, as the query reads it; `encoding/hex` and
-- the JSON encoding are Go's standard library.
use catalogger.Base.{
  nat_eq, ltb, if◌then◌else◌, take, ◌>>=◌, wrap, Result, ok, err, ℕ, Option, none, some, List, [],
  ◌∷◌,
}
use catalogger.Db.Crypt.{Text, decrypt}
use catalogger.Db.Rows.{Metadata, Services}

pub record OldRow : Type 0 where
  pub msg_id : ℕ
  pub user_id : ℕ
  pub channel_id : ℕ
  pub server_id : ℕ
  pub content : Text
  pub username : Text
  pub member : Option Text
  pub system : Option Text
  pub raw_metadata : Option Text

pub record OldMessage : Type 0 where
  pub msg_id : ℕ
  pub user_id : ℕ
  pub channel_id : ℕ
  pub server_id : ℕ
  pub content : Text
  pub username : Text
  pub member : Option Text
  pub system : Option Text
  pub metadata : Option Metadata

-- the rows with `msg_id > prevMaxID`
abbrev pub above : ℕ → List OldRow → List OldRow
above bound [] = []
above bound (r ∷ rs) = if ltb bound r.msg_id then r ∷ above bound rs else above bound rs

-- the columns of a row that are encrypted, in the clear
pub record Parts : Type 0 where
  pub content : Text
  pub username : Text
  pub metadata : Option Metadata

abbrev pub fill : OldRow → Result Parts → Result OldMessage
fill r (err e) = err e
fill r (ok p) = ok (record {
  msg_id = r.msg_id;
  user_id = r.user_id;
  channel_id = r.channel_id;
  server_id = r.server_id;
  content = p.content;
  username = p.username;
  member = r.member;
  system = r.system;
  metadata = p.metadata;
})

module _ (s : Services) (hex : Text → Result Text) (old_key : Text) where
  unfoldable pub old_metadata : Option Text → Result (Option Metadata)
  old_metadata none = ok none
  old_metadata (some raw) = do
    b ← wrap "decrypting metadata" (decrypt s.crypto raw old_key)
    md ← wrap "decrypting metadata" (s.unmarshal b)
    ok (some md)

  -- the three columns that are decrypted
  unfoldable pub old_parts : OldRow → Result Parts
  unfolding old_metadata
  old_parts r = do
    b ← wrap "" (hex r.content)
    content ← decrypt s.crypto b old_key
    b' ← hex r.username
    username ← decrypt s.crypto b' old_key
    metadata ← old_metadata r.raw_metadata
    ok (record { content = content; username = username; metadata = metadata })

  abbrev pub old_message : OldRow → Result OldMessage
  old_message r = fill r (old_parts r)

  abbrev pub old_messages : List OldRow → Result (List OldMessage)
  old_messages [] = ok []
  old_messages (r ∷ rs) = do m ← old_message r; ms ← old_messages rs; ok (m ∷ ms)

-- the query's limit
abbrev pub page_size : ℕ
page_size = 1000

module _ (s : Services) (hex : Text → Result Text) (old_key : Text) where
  -- `read` is what the statement on the old database returns: its error, or the page
  unfoldable pub get_old_messages : Result (List OldRow) → Result (List OldMessage)
  get_old_messages read = do rows ← wrap "getting message" read; old_messages s hex old_key rows

-- the page that the query on a table of these rows reads
abbrev pub page : ℕ → List OldRow → ℕ → List OldRow
page size rows last = take size (above last rows)
