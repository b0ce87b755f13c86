-- ===== src/Db/Messages/Proxied.antt =====
-- What `GetMessage` returns after `UpdatePKInfo` (db/message.go).
use catalogger.Base.{
  nat_eq, Option-cases, Result-cases, ok, ℕ, ◌≡◌, sym, ◌∙◌, inl, inr, some, arith,
}
use catalogger.Db.Rows.{open_metadata, open_row, Message, Services}
use catalogger.Db.Messages.{get_message, update_pk_info}
use catalogger.Db.Messages.Lookup.{pk_row, get-update_pk_info}
use catalogger.Db.Messages.RoundTrip.{get_message-row, get_message_missing, healthy}
use catalogger.Db.Crypt.{Text, decrypt}
use catalogger.Base.GoMap
use catalogger.Db.Tables.{Row, Db}

-- the message with PluralKit's data
abbrev pub proxied_message : Message → ℕ → ℕ → Text → Text → Message
proxied_message m original user system member = record m {
  original_id = some original;
  user_id = user;
  system = some system;
  member = some member;
}

open_row-pk_row :
    (s : Services) (id original user : ℕ) (system member : Text) (row : Row) (old : Message)
    → open_row s id row ≡ ok old
    → open_row s id (pk_row row original user system member)
      ≡ ok (proxied_message old original user system member)
unfolding open_row pk_row
open_row-pk_row s id original user system member row old h =
    elim (Result-cases (decrypt s.crypto row.content s.aes_key)) [
      | inr (x, r) ↦ absurd (ground arith)
      | inl (t, r) ↦ elim (Result-cases (decrypt s.crypto row.username s.aes_key)) [
        | inr (x, r') ↦ absurd (ground arith)
        | inl (u, r') ↦ elim (Result-cases (open_metadata s row.metadata)) [
          | inr (x, r'') ↦ absurd (ground arith)
          | inl (md, r'') ↦ ground arith
        ]
      ]
    ]

-- Once the PluralKit data of a message that can be read is updated without an error, a lookup that
-- meets no fault returns the message with the data, and otherwise as it was.
pub get_message-update_pk_info :
    (s : Services) (msg original user : ℕ) (system member : Text) (old : Message) (db : Db)
    → (get_message s msg (healthy db)).0 ≡ ok old
    → (update_pk_info msg original user system member db).0 ≡ ok tt
    → (get_message s msg (healthy (update_pk_info msg original user system member db).1)).0
      ≡ ok (proxied_message old original user system member)
get_message-update_pk_info s msg original user system member old db before done =
    elim (Option-cases (GoMap.get db.messages msg)) [
      | inl missing ↦ absurd (get_message_missing s msg db old missing before)
      | inr (row, there) ↦
          get_message-row s msg (pk_row row original user system member)
            (update_pk_info msg original user system member db).1
            (get-update_pk_info msg original user system member row db there done)
          ∙ open_row-pk_row s msg original user system member row old
              (sym (get_message-row s msg row db there) ∙ before)
    ]
