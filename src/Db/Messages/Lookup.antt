-- ===== src/Db/Messages/Lookup.antt =====
-- What the lookups of db/message.go answer after its updates.
use catalogger.Db.Messages.{
  open_row, Message, ok_true, any_row, get_message, update_row, update_pk_info, has_info,
  has_pk_info, delete_message, add_ignored, ignore_message, is_message_ignored,
}
use catalogger.Base.GoMap
use catalogger.Base.{
  nat_eq, if◌then◌else◌, nat_beq_iff, Bool-cases, Option-cases, ◌==◌, ==_refl, contains, Result,
  sentinel, wrapped, ok, err, ℕ, ◌≡◌, refl, sym, ap, ◌∙◌, subst, inl, inr, true, ◌||◌, Option, none,
  some, List, [], ◌∷◌, arith,
}
use catalogger.Db.Crypt.{Text}
use catalogger.Db.Tables.{Row, Db}
use catalogger.Db.Rows.{Services}
use catalogger.Db.Messages.Inversion.{wrap-inv, statement_or-inv}
use catalogger.Db.Messages.RoundTrip.{healthy}

some-inj : {A : Type 0} (a b : A) → some a ≡ some b → a ≡ b
some-inj a b e = ground arith

any_row-get :
    (id key : ℕ) (row : Row) (rows : GoMap.GoMap ℕ Row)
    → GoMap.get rows key ≡ some row
    → has_info id key row ≡ true
    → any_row id rows ≡ true
unfolding any_row GoMap.get
any_row-get id key row [] h t = absurd (ground arith)
any_row-get id key row ((k, r) ∷ rs) h t = elim (Bool-cases (k == key)) [
  | inl e ↦
      let same = some-inj r row (sym (ap (λ c. if c then some r else GoMap.get rs key) e) ∙ h) in
      ap (λ c. c || any_row id rs)
        (subst (λ q. has_info id k q ≡ true) (sym same)
          (subst (λ j. has_info id j row ≡ true) (sym ((nat_beq_iff k key).0 e)) t))
  | inr e ↦ ground (
    arith,
    any_row-get id key row rs (sym (ap (λ c. if c then some r else GoMap.get rs key) e) ∙ h) t,
  )
]

-- the row that the update leaves
unfoldable pub pk_row : Row → ℕ → ℕ → Text → Text → Row
pk_row row original user system member = record row {
  original_id = some original;
  user_id = user;
  system = some system;
  member = some member;
}

pub get-update_pk_info :
    (msg original user : ℕ) (system member : Text) (row : Row) (db : Db)
    → GoMap.get db.messages msg ≡ some row
    → (update_pk_info msg original user system member db).0 ≡ ok tt
    → GoMap.get (update_pk_info msg original user system member db).1.messages msg
      ≡ some (pk_row row original user system member)
unfolding update_pk_info pk_row
get-update_pk_info msg original user system member row db there done =
    let (gs, n) =
      statement_or-inv db.faults
        (λ d. (
          tt,
          update_row d msg (GoMap.get d.messages msg) (λ r. record r {
            original_id = some original;
            user_id = user;
            system = some system;
            member = some member;
          }),
        ))
        db tt done in
    rw
      (
        n,
        there,
        GoMap.get-put db.messages msg (pk_row row original user system member) msg,
        ==_refl msg,
      )
      refl

-- Once the PluralKit data of a message that the table has is updated without an error, a lookup that
-- meets no fault finds the data under the identifier of the message and under that of its original.
pub has_pk_info-update_pk_info :
    (msg original user : ℕ) (system member : Text) (row : Row) (db : Db)
    → GoMap.get db.messages msg ≡ some row
    → (update_pk_info msg original user system member db).0 ≡ ok tt
    → ((has_pk_info msg (healthy (update_pk_info msg original user system member db).1)).0 ≡ true)
      × ((has_pk_info original (healthy (update_pk_info msg original user system member db).1)).0
          ≡ true)
unfolding has_pk_info ok_true pk_row
has_pk_info-update_pk_info msg original user system member row db there done =
    let found = get-update_pk_info msg original user system member row db there done in
    (
      any_row-get msg msg (pk_row row original user system member)
          (update_pk_info msg original user system member db).1.messages found (ground (arith)),
      any_row-get original msg (pk_row row original user system member)
          (update_pk_info msg original user system member db).1.messages found (ground (arith)),
    )

contains-add_ignored :
    (ids : List ℕ) (id other : ℕ)
    → contains (add_ignored ids id) other ≡ (id == other || contains ids other)
contains-add_ignored ids id other =
    ground (arith, nat_beq_iff id other, Bool-cases (contains ids id))

-- Once a message is ignored without an error, a lookup that meets no fault answers that exactly this
-- message and those ignored before are ignored.
pub is_message_ignored-ignore_message :
    (id other : ℕ) (db : Db)
    → (ignore_message id db).0 ≡ ok tt
    → (is_message_ignored other (healthy (ignore_message id db).1)).0
      ≡ ok (id == other || contains db.ignored_messages other)
unfolding ignore_message is_message_ignored
is_message_ignored-ignore_message id other db done =
    let (gs, n) =
      statement_or-inv db.faults
        (λ d. (tt, record d { ignored_messages = add_ignored d.ignored_messages id })) db tt
        (wrap-inv "executing query" _ tt done) in
    ap (λ p. ok (contains p.1.ignored_messages other)) n
    ∙ ap (λ b. ok b) (contains-add_ignored db.ignored_messages id other)

-- what a lookup that meets no fault makes of the row
abbrev read_row : Services → ℕ → Option Row → Result Message
read_row s id none = err (wrapped "getting from database" (sentinel "no row was found"))
read_row s id (some row) = open_row s id row

get_message-read_row :
    (s : Services) (id : ℕ) (db : Db)
    → (get_message s id (healthy db)).0 ≡ read_row s id (GoMap.get db.messages id)
unfolding get_message
get_message-read_row s id db = elim (Option-cases (GoMap.get db.messages id)) [
  | inl h ↦ rw (h) refl
  | inr (row, h) ↦ rw (h) refl
]

-- Once a message is deleted without an error, a lookup that meets no fault finds every other message
-- as before, and not this one.
pub get_message-delete_message :
    (s : Services) (id other : ℕ) (db : Db)
    → (delete_message id db).0 ≡ ok tt
    → (get_message s other (healthy (delete_message id db).1)).0 ≡ (
        if id == other
        then err (wrapped "getting from database" (sentinel "no row was found"))
        else (get_message s other (healthy db)).0)
unfolding delete_message
get_message-delete_message s id other db done =
    let (gs, n) =
      statement_or-inv db.faults (λ d. (tt, record d { messages = GoMap.del d.messages id })) db tt
        (wrap-inv "executing query" _ tt done) in
    let db' = record db { messages = GoMap.del db.messages id; faults = gs } in
    ap (λ p. (get_message s other (healthy p.1)).0) n
    ∙ get_message-read_row s other db'
    ∙ elim (Bool-cases (id == other)) [
      | inl e ↦ rw (GoMap.get-del db.messages id other, e) refl
      | inr e ↦ rw (GoMap.get-del db.messages id other, e) (sym (get_message-read_row s other db))
    ]
