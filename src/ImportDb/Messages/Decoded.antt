-- ===== src/ImportDb/Messages/Decoded.antt =====
-- The messages of a page (cmd/importdb/message.go) and the rows that they were read from.
use catalogger.ImportDb.Messages.Pages.{above-page, IsAscending, last_row}
use catalogger.ImportDb.Old.{
  fill, above, old_parts, Parts, old_message, old_messages, page, OldRow, OldMessage,
}
use catalogger.Base.{
  nat_eq, length, drop, ◌>>=◌, bind-inv, Result, ok, err, ℕ, zero, suc, ◌-◌, ◌≤◌, ◌<◌, ◌≡◌, refl,
  ap, ◌∙◌, ◌≢◌, List, [], ◌∷◌, arith,
}
use catalogger.ImportDb.Messages.{last_id}
use catalogger.Db.Rows.{Services}
use catalogger.Db.Crypt.{Text}

pub length-drop : {A : Type 0} (size : ℕ) (xs : List A) → length (drop size xs) ≡ length xs - size
length-drop zero xs = omega arith
length-drop (suc n) [] = omega arith
length-drop (suc n) (x ∷ xs) = omega (arith, length-drop n xs)

pub shrinks :
    {A : Type 0} (size fuel : ℕ) (xs : List A)
    → length xs < suc fuel
    → xs ≢ []
    → length (drop (suc size) xs) < fuel
shrinks size fuel [] h n = absurd (n refl)
shrinks size fuel (x ∷ xs) h n = omega (arith, length-drop size xs)

pub length-above : (b : ℕ) (rows : List OldRow) → length (above b rows) ≤ length rows
length-above b [] = omega arith
length-above b (r ∷ rs) = ground (arith, length-above b rs)

fill-id : (r : OldRow) (p : Result Parts) (m : OldMessage) → fill r p ≡ ok m → m.msg_id ≡ r.msg_id
fill-id r (ok p) m e = ground arith
fill-id r (err x) m e = absurd (ground arith)

cons-inv : {A : Type 0} (x y : A) (xs ys : List A) → ok (x ∷ xs) ≡ ok (y ∷ ys) → (x ≡ y) × (xs ≡ ys)
cons-inv x y xs ys e = ground arith

module _ (s : Services) (hex : Text → Result Text) (old_key : Text) where
  -- the row and the rows that a first message and the others were read from
  pub old_messages-inv :
      (r : OldRow) (rs : List OldRow) (m : OldMessage) (ms : List OldMessage)
      → old_messages s hex old_key (r ∷ rs) ≡ ok (m ∷ ms)
      → (old_message s hex old_key r ≡ ok m) × (old_messages s hex old_key rs ≡ ok ms)
  old_messages-inv r rs m ms e =
      let (m1, h, e1) =
        bind-inv (old_message s hex old_key r)
          (λ x. do xs ← old_messages s hex old_key rs; ok (x ∷ xs)) (m ∷ ms) e in
      let (ms1, h1, e2) =
        bind-inv (old_messages s hex old_key rs) (λ xs. ok (m1 ∷ xs)) (m ∷ ms) e1 in
      let (same, same') = cons-inv m1 m ms1 ms e2 in
      (h ∙ ap (λ x. ok x) same, h1 ∙ ap (λ x. ok x) same')

  pub old_messages-nonempty :
      (r : OldRow) (rs : List OldRow) → old_messages s hex old_key (r ∷ rs) ≢ ok []
  old_messages-nonempty r rs e =
      let (m1, h, e1) =
        bind-inv (old_message s hex old_key r)
          (λ x. do xs ← old_messages s hex old_key rs; ok (x ∷ xs)) [] e in
      let (ms1, h1, e2) = bind-inv (old_messages s hex old_key rs) (λ xs. ok (m1 ∷ xs)) [] e1 in
      absurd (ground (arith, e2))

  pub last_id-rows :
      (r : OldRow) (rs : List OldRow) (m : OldMessage) (ms : List OldMessage)
      → old_messages s hex old_key (r ∷ rs) ≡ ok (m ∷ ms)
      → last_id m ms ≡ (last_row r rs).msg_id
  last_id-rows r [] m [] e =
      fill-id r (old_parts s hex old_key r) m (old_messages-inv r [] m [] e).0
  last_id-rows r (q ∷ qs) m (n ∷ ns) e =
      last_id-rows q qs n ns (old_messages-inv r (q ∷ qs) m (n ∷ ns) e).1
  last_id-rows r [] m (n ∷ ns) e = absurd (ground (arith, (old_messages-inv r [] m (n ∷ ns) e).1))
  last_id-rows r (q ∷ qs) m [] e =
      absurd (old_messages-nonempty q qs (old_messages-inv r (q ∷ qs) m [] e).1)

module _ (s : Services) (hex : Text → Result Text) (old_key : Text) (rows : List OldRow) (size : ℕ)
    (asc : IsAscending rows) where
  -- a page that is not empty leaves fewer rows
  pub rest_of_page :
      (last : ℕ) (m : OldMessage) (ms : List OldMessage)
      → old_messages s hex old_key (page (suc size) rows last) ≡ ok (m ∷ ms)
      → above (last_id m ms) rows ≡ drop (suc size) (above last rows)
  rest_of_page last m ms e = go (page (suc size) rows last) refl e
    where
      go :
          (p : List OldRow)
          → page (suc size) rows last ≡ p
          → old_messages s hex old_key p ≡ ok (m ∷ ms)
          → above (last_id m ms) rows ≡ drop (suc size) (above last rows)
      go [] h e' = absurd (ground arith)
      go (r ∷ rs) h e' =
          rw (last_id-rows s hex old_key r rs m ms e') (above-page (suc size) last rows r rs asc h)

module _ (s : Services) (hex : Text → Result Text) (old_key : Text) (rows : List OldRow)
    (size : ℕ) where
  pub page_has_rows :
      (last : ℕ) (m : OldMessage) (ms : List OldMessage)
      → old_messages s hex old_key (page (suc size) rows last) ≡ ok (m ∷ ms)
      → above last rows ≢ []
  page_has_rows last m ms e h = ground arith
