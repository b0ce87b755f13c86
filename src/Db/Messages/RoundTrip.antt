-- ===== src/Db/Messages/RoundTrip.antt =====
-- What `GetMessage` returns after `InsertMessage` (db/message.go), and what the other statements keep.
use catalogger.Db.Rows.{open_metadata, or_none, open_row, Message, Services}
use catalogger.Db.Messages.{decrypt, Text, upsert, insert_message, get_message}
use catalogger.Db.Messages.Inversion.{insert_message-fails, insert-inv, Written}
use catalogger.Base.GoMap
use catalogger.Base.{
  nat_eq, nat_beq_iff, Option-cases, ==_refl, is_ok, Result-cases, ok, ℕ, ◌≡◌, refl, sym, ap, ◌∙◌,
  ◌≢◌, inl, inr, false, none, some, [], arith,
}
use catalogger.Db.Tables.{Row, Db}

-- no fault is to come
abbrev pub healthy : Db → Db
healthy db = record db { faults = [] }

-- a message as the table keeps it when it is new: without its original and its attachments' size
abbrev pub as_stored : Message → Message
as_stored m = record m { original_id = none; content = or_none m.content; attachment_size = 0 }

open_upsert_new :
    (s : Services) (m : Message) (db : Db) (w : Written s m db)
    → open_row s m.id (upsert none m w.content w.username w.metadata) ≡ ok (as_stored m)
unfolding open_row
open_upsert_new s m db w = rw (w.content_opens, w.username_opens, w.metadata_opens) refl

pub get_message-row :
    (s : Services) (id : ℕ) (row : Row) (db : Db)
    → GoMap.get db.messages id ≡ some row
    → (get_message s id (healthy db)).0 ≡ open_row s id row
unfolding get_message
get_message-row s id row db h = rw (h) refl

get-inserted :
    (s : Services) (m : Message) (db : Db) (w : Written s m db)
    → GoMap.get (insert_message s m db).1.messages m.id
      ≡ some (upsert (GoMap.get db.messages m.id) m w.content w.username w.metadata)
get-inserted s m db w =
    rw
      (
        w.rows,
        GoMap.get-put db.messages m.id
            (upsert (GoMap.get db.messages m.id) m w.content w.username w.metadata) m.id,
        ==_refl m.id,
      )
      refl

-- A message whose identifier is new in the table, once inserted without an error, is what a lookup
-- that meets no fault returns: its content is "None" if it was empty, and the identifier of its
-- original and the size of its attachments are not kept.
pub get_message-insert_message :
    (s : Services) (m : Message) (db : Db)
    → GoMap.get db.messages m.id ≡ none
    → (insert_message s m db).0 ≡ ok tt
    → (get_message s m.id (healthy (insert_message s m db).1)).0 ≡ ok (as_stored m)
get_message-insert_message s m db fresh done =
    let w = insert-inv s m db done in
    get_message-row s m.id (upsert none m w.content w.username w.metadata) (insert_message s m db).1
      (get-inserted s m db w ∙ ap (λ o. some (upsert o m w.content w.username w.metadata)) fresh)
    ∙ open_upsert_new s m db w

open_row_content :
    (s : Services) (id : ℕ) (row : Row) (old : Message) (c p : Text)
    → open_row s id row ≡ ok old
    → decrypt s.crypto c s.aes_key ≡ ok p
    → open_row s id (record row { content = c }) ≡ ok (record old { content = p })
unfolding open_row
open_row_content s id row old c p h d =
    elim (Result-cases (decrypt s.crypto row.content s.aes_key)) [
      | inr (x, r) ↦ absurd (ground arith)
      | inl (t, r) ↦ elim (Result-cases (decrypt s.crypto row.username s.aes_key)) [
        | inr (x, r') ↦ absurd (ground arith)
        | inl (u, r') ↦ elim (Result-cases (open_metadata s row.metadata)) [
          | inr (x, r'') ↦ absurd (ground arith)
          | inl (md, r'') ↦ ground arith
        ]
      ]
    ]

pub get_message_missing :
    (s : Services) (id : ℕ) (db : Db) (old : Message)
    → GoMap.get db.messages id ≡ none
    → (get_message s id (healthy db)).0 ≢ ok old
unfolding get_message
get_message_missing s id db old h e = ground arith

-- A message inserted without an error under an identifier that the table has changes the content of
-- the message there and nothing else: a lookup that meets no fault returns the message that was
-- there with the new content ("None" if it is empty).
pub get_message-insert_message_again :
    (s : Services) (m old : Message) (db : Db)
    → (get_message s m.id (healthy db)).0 ≡ ok old
    → (insert_message s m db).0 ≡ ok tt
    → (get_message s m.id (healthy (insert_message s m db).1)).0
      ≡ ok (record old { content = or_none m.content })
get_message-insert_message_again s m old db before done =
    let w = insert-inv s m db done in
    elim (Option-cases (GoMap.get db.messages m.id)) [
      | inl missing ↦ absurd (get_message_missing s m.id db old missing before)
      | inr (row, there) ↦
          get_message-row s m.id (upsert (some row) m w.content w.username w.metadata)
            (insert_message s m db).1
            (get-inserted s m db w
              ∙ ap (λ o. some (upsert o m w.content w.username w.metadata)) there)
          ∙ open_row_content s m.id row old w.content (or_none m.content)
              (sym (get_message-row s m.id row db there) ∙ before) w.content_opens
    ]

-- Whether it fails or not, inserting a message leaves the rows of all other identifiers as they were,
-- and one that fails leaves every row.
pub insert_message-keeps :
    (s : Services) (m : Message) (db : Db) (id : ℕ)
    → (m.id ≡ id → is_ok (insert_message s m db).0 ≡ false)
    → GoMap.get (insert_message s m db).1.messages id ≡ GoMap.get db.messages id
insert_message-keeps s m db id h = elim (Result-cases (insert_message s m db).0) [
  | inr (e, failed) ↦ ap (λ t. GoMap.get t id) (insert_message-fails s m db e failed)
  | inl (tt, done) ↦
      let w = insert-inv s m db done in
      rw
        (
          w.rows,
          GoMap.get-put db.messages m.id
              (upsert (GoMap.get db.messages m.id) m w.content w.username w.metadata) id,
        )
        (ground (arith, nat_beq_iff m.id id))
]
