-- ===== src/Db/Rows.antt =====
-- db/message.go: the structs of a message, and a row of the table read as a message. The encoding of
-- metadata as JSON is Go's standard library.
-- The message that `GetMessage` returns beside an error about its metadata is left out.
use catalogger.Base.{
  nat_eq, if◌then◌else◌, ◌>>=◌, wrap, Result, ok, err, bytes, is_empty, ℕ, ◌≡◌, Option, none, some,
  List, [],
}
use catalogger.Discord.{Embed}
use catalogger.Db.Crypt.{Text, Crypto, decrypt}
use catalogger.Db.Tables.{Row}

pub record Metadata : Type 0 where
  pub user_id : Option ℕ
  pub username : Text
  pub avatar : Text
  pub embeds : List Embed

pub record Message : Type 0 where
  pub id : ℕ
  pub original_id : Option ℕ
  pub user_id : ℕ
  pub channel_id : ℕ
  pub guild_id : ℕ
  pub content : Text
  pub username : Text
  pub member : Option Text
  pub system : Option Text
  pub metadata : Option Metadata
  pub attachment_size : ℕ

-- What the methods take from the `DB` value and from Go's libraries.
pub record Services : Type 0 where
  pub crypto : Crypto
  pub aes_key : Text
  pub marshal : Metadata → Result Text
  pub unmarshal : Text → Result Metadata
  -- `json.Unmarshal` reads back what `json.Marshal` wrote
  pub unmarshal-marshal : (md : Metadata) (b : Text) → marshal md ≡ ok b → unmarshal b ≡ ok md

abbrev pub or_none : Text → Text
or_none content = if is_empty content then bytes "None" else content

module _ (s : Services) where
  -- A metadata column that cannot be decrypted is logged, and then read as the empty text.
  unfoldable pub or_empty : Result Text → Text
  or_empty (ok b) = b
  or_empty (err e) = []

  unfoldable pub open_metadata : Option Text → Result (Option Metadata)
  unfolding or_empty
  open_metadata none = ok none
  open_metadata (some raw) = do
    md ← wrap "decrypting metadata" (s.unmarshal (or_empty (decrypt s.crypto raw s.aes_key)))
    ok (some md)

  unfoldable pub open_row : ℕ → Row → Result Message
  unfolding open_metadata
  open_row id row = do
    content ← wrap "decrypting content" (decrypt s.crypto row.content s.aes_key)
    username ← wrap "decrypting username" (decrypt s.crypto row.username s.aes_key)
    metadata ← open_metadata row.metadata
    ok (record {
      id = id;
      original_id = row.original_id;
      user_id = row.user_id;
      channel_id = row.channel_id;
      guild_id = row.guild_id;
      content = content;
      username = username;
      member = row.member;
      system = row.system;
      metadata = metadata;
      attachment_size = row.attachment_size;
    })
