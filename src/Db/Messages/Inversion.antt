-- ===== src/Db/Messages/Inversion.antt =====
-- What a successful `InsertMessage` (db/message.go) has gone through.
use catalogger.Db.Messages.{
  statement, put_row, pure, Row, seal, seal_metadata, upsert, insert_message,
}
use catalogger.Db.Rows.{or_empty, or_none, open_metadata, Metadata, Message, Services}
use catalogger.Base.{
  wrap, Result-cases, ok-inj, Error, Result, ok, err, ℕ, String, ◌≡◌, refl, sym, ap, ◌∙◌, subst,
  inl, inr, Bool, true, false, Option, none, some, List, [], ◌∷◌, arith, nat_eq,
}
use catalogger.Base.GoMap
use catalogger.Db.Tables.{◌>>=◌, Action, and_then, statement_or, Db}
use catalogger.Db.Crypt.{Text, encrypt, decrypt, decrypt-encrypt}

pub wrap-inv : {A : Type 0} (msg : String) (r : Result A) (a : A) → wrap msg r ≡ ok a → r ≡ ok a
wrap-inv msg (ok b) a e = e
wrap-inv msg (err x) a e = absurd (ground arith)

pub and_then-inv :
    {A B : Type 0} (p : Result A × Db) (f : A → Action B) (b : B)
    → (and_then p f).0 ≡ ok b
    → (a : A) × (p.0 ≡ ok a) × (and_then p f ≡ f a p.1)
and_then-inv (ok a, db) f b e = (a, refl, refl)
and_then-inv (err x, db) f b e = absurd (ground arith)

pub statement_or-inv :
    {A : Type 0} (fs : List Bool) (run : Db → A × Db) (db : Db) (a : A)
    → (statement_or fs run db).0 ≡ ok a
    → (gs : List Bool) × (statement_or fs run db
        ≡ (ok (run (record db { faults = gs })).0, (run (record db { faults = gs })).1))
statement_or-inv [] run db a e = ([], refl)
statement_or-inv (true ∷ fs) run db a e = absurd (ground arith)
statement_or-inv (false ∷ fs) run db a e = (fs, refl)

-- the texts that a successful insertion wrote
pub record Written (s : Services) (m : Message) (db : Db) : Type 0 where
  pub content : Text
  pub username : Text
  pub metadata : Option Text
  pub content_opens : decrypt s.crypto content s.aes_key ≡ ok (or_none m.content)
  pub username_opens : decrypt s.crypto username s.aes_key ≡ ok m.username
  pub metadata_opens : open_metadata s metadata ≡ ok m.metadata
  pub rows :
      (insert_message s m db).1.messages
      ≡ GoMap.put db.messages m.id (upsert (GoMap.get db.messages m.id) m content username metadata)

seal-opens :
    (s : Services) (what : String) (plaintext b : Text) (db : Db)
    → (seal s what plaintext db).0 ≡ ok b
    → decrypt s.crypto b s.aes_key ≡ ok plaintext
unfolding seal
seal-opens s what plaintext b db e =
    decrypt-encrypt s.crypto db.draws plaintext s.aes_key b
      (wrap-inv what (encrypt s.crypto db.draws plaintext s.aes_key) b e)

seal-messages :
    (s : Services) (what : String) (plaintext : Text) (db : Db)
    → (seal s what plaintext db).1.messages ≡ db.messages
unfolding seal
seal-messages s what plaintext db = refl

-- the table `messages` after a method
abbrev table : {A : Type 0} → Result A × Db → GoMap.GoMap ℕ Row
table p = p.1.messages

-- the steps of a metadata column that was sealed
seal_some-messages :
    (s : Services) (r : Result Text) (db : Db)
    → table (and_then (r, db) (λ jsonb. seal s "encrypting metadata" jsonb >>= λ b. pure (some b)))
      ≡ db.messages
unfolding seal
seal_some-messages s (err x) db = refl
seal_some-messages s (ok jsonb) db =
    elim (Result-cases (encrypt s.crypto db.draws jsonb s.aes_key)) [
      | inl (b, r) ↦ rw (r) refl
      | inr (x, r) ↦ rw (r) refl
    ]

seal_metadata-messages :
    (s : Services) (md : Option Metadata) (db : Db)
    → (seal_metadata s md db).1.messages ≡ db.messages
unfolding seal_metadata
seal_metadata-messages s none db = refl
seal_metadata-messages s (some md) db =
    seal_some-messages s (wrap "marshaling metadata" (s.marshal md)) db

opens_some :
    (s : Services) (md : Metadata) (jsonb b : Text)
    → s.marshal md ≡ ok jsonb
    → decrypt s.crypto b s.aes_key ≡ ok jsonb
    → open_metadata s (some b) ≡ ok (some md)
unfolding open_metadata or_empty
opens_some s md jsonb b h d = rw (d, s.unmarshal-marshal md jsonb h) refl

seal_metadata-opens :
    (s : Services) (md : Option Metadata) (b : Option Text) (db : Db)
    → (seal_metadata s md db).0 ≡ ok b
    → open_metadata s b ≡ ok md
unfolding seal_metadata open_metadata
seal_metadata-opens s none b db e = rw (← ok-inj none b e) refl
seal_metadata-opens s (some md) b db e =
    let (jsonb, h, next) =
      and_then-inv (wrap "marshaling metadata" (s.marshal md), db)
        (λ j. seal s "encrypting metadata" j >>= λ c. pure (some c)) b e in
    let sealed = ap (λ p. p.0) (sym next) ∙ e in
    let (c, h', next') =
      and_then-inv (seal s "encrypting metadata" jsonb db) (λ x. pure (some x)) b sealed in
    let same = ok-inj (some c) b (ap (λ p. p.0) (sym next') ∙ sealed) in
    subst (λ x. open_metadata s x ≡ ok (some md)) same
      (opens_some s md jsonb c (wrap-inv "marshaling metadata" (s.marshal md) jsonb h)
        (seal-opens s "encrypting metadata" jsonb c db h'))

-- the statement of `InsertMessage`
abbrev write_row : Message → Text → Text → Option Text → Db → (Unit {0}) × Db
write_row m c u md d = (tt, put_row d m.id (upsert (GoMap.get d.messages m.id) m c u md))

pub insert-inv :
    (s : Services) (m : Message) (db : Db) → (insert_message s m db).0 ≡ ok tt → Written s m db
unfolding insert_message
insert-inv s m db e =
    let db1 = (seal s "encrypting content" (or_none m.content) db).1 in
    let db2 = (seal s "encrypting username" m.username db1).1 in
    let db3 = (seal_metadata s m.metadata db2).1 in
    let (c, hc, n1) =
      and_then-inv (seal s "encrypting content" (or_none m.content) db)
        (λ content. do
          username ← seal s "encrypting username" m.username
          metadata ← seal_metadata s m.metadata
          statement (write_row m content username metadata))
        tt e in
    let e1 = ap (λ p. p.0) (sym n1) ∙ e in
    let (u, hu, n2) =
      and_then-inv (seal s "encrypting username" m.username db1)
        (λ username. do
          metadata ← seal_metadata s m.metadata
          statement (write_row m c username metadata))
        tt e1 in
    let e2 = ap (λ p. p.0) (sym n2) ∙ e1 in
    let (md, hm, n3) =
      and_then-inv (seal_metadata s m.metadata db2)
        (λ metadata. statement (write_row m c u metadata)) tt e2 in
    let e3 = ap (λ p. p.0) (sym n3) ∙ e2 in
    let (gs, n4) = statement_or-inv db3.faults (write_row m c u md) db3 tt e3 in
    let same =
      seal_metadata-messages s m.metadata db2
      ∙ seal-messages s "encrypting username" m.username db1
      ∙ seal-messages s "encrypting content" (or_none m.content) db in
    record {
      content = c;
      username = u;
      metadata = md;
      content_opens = seal-opens s "encrypting content" (or_none m.content) c db hc;
      username_opens = seal-opens s "encrypting username" m.username u db1 hu;
      metadata_opens = seal_metadata-opens s m.metadata md db2 hm;
      rows =
          ap (λ p. p.1.messages) (n1 ∙ n2 ∙ n3 ∙ n4)
          ∙ ap (λ t. GoMap.put t m.id (upsert (GoMap.get t m.id) m c u md)) same;
    }

-- a method that leaves the messages as they were when it fails
IsAtomic : {A : Type 0} → Action A → Type 0
IsAtomic f = (db : Db) (e : Error) → (f db).0 ≡ err e → (f db).1.messages ≡ db.messages

and_then-keeps :
    {A B : Type 0} (p : Result A × Db) (f : A → Action B) (e : Error)
    → ((a : A) → IsAtomic (f a))
    → (and_then p f).0 ≡ err e
    → (and_then p f).1.messages ≡ p.1.messages
unfolding IsAtomic
and_then-keeps (ok a, db) f e h failed = h a db e failed
and_then-keeps (err x, db) f e h failed = refl

bind-IsAtomic :
    {A B : Type 0} (m : Action A) (f : A → Action B)
    → ((db : Db) → (m db).1.messages ≡ db.messages)
    → ((a : A) → IsAtomic (f a))
    → IsAtomic (m >>= f)
unfolding IsAtomic
bind-IsAtomic m f keeps h db e failed = and_then-keeps (m db) f e h failed ∙ keeps db

statement_or-keeps :
    {A : Type 0} (fs : List Bool) (run : Db → A × Db) (db : Db) (e : Error)
    → (statement_or fs run db).0 ≡ err e
    → (statement_or fs run db).1.messages ≡ db.messages
statement_or-keeps [] run db e h = absurd (ground arith)
statement_or-keeps (true ∷ fs) run db e h = refl
statement_or-keeps (false ∷ fs) run db e h = absurd (ground arith)

pub insert_message-fails :
    (s : Services) (m : Message) (db : Db) (e : Error)
    → (insert_message s m db).0 ≡ err e
    → (insert_message s m db).1.messages ≡ db.messages
unfolding insert_message IsAtomic
insert_message-fails s m db e =
    bind-IsAtomic (seal s "encrypting content" (or_none m.content))
      (λ content. do
        username ← seal s "encrypting username" m.username
        metadata ← seal_metadata s m.metadata
        statement (write_row m content username metadata))
      (seal-messages s "encrypting content" (or_none m.content))
      (λ content.
        bind-IsAtomic (seal s "encrypting username" m.username)
          (λ username. do
            metadata ← seal_metadata s m.metadata
            statement (write_row m content username metadata))
          (seal-messages s "encrypting username" m.username)
          (λ username.
            bind-IsAtomic (seal_metadata s m.metadata)
              (λ metadata. statement (write_row m content username metadata))
              (seal_metadata-messages s m.metadata)
              (λ metadata d x.
                statement_or-keeps d.faults (write_row m content username metadata) d x)))
      db e
