-- ===== src/ImportDb/Messages/Pages.antt =====
-- The pages of the old messages (cmd/importdb/message.go): what stands above the last row of a page
-- are the rows behind the page.
use catalogger.Base.{
  nat_eq, ltb, ltb→lt, Bool-cases, take, drop, All, take-append-drop, ℕ, ◌≤◌, ◌<◌, ◌≡◌, refl, sym,
  ap, ◌∙◌, subst, inl, inr, List, [], ◌∷◌, ◌++◌, arith,
}
use catalogger.ImportDb.Old.{above, OldRow}

-- all rows' identifiers are above the bound
abbrev pub AllAbove : ℕ → List OldRow → Type 0
AllAbove bound rows = All (λ r. bound < r.msg_id) rows

-- ascending identifiers, as a primary key in the order of the query
abbrev pub IsAscending : List OldRow → Type 0
IsAscending [] = Unit
IsAscending (r ∷ rs) = AllAbove r.msg_id rs × IsAscending rs

abbrev pub last_row : OldRow → List OldRow → OldRow
last_row r [] = r
last_row r (q ∷ qs) = last_row q qs

above_of_AllAbove : (b : ℕ) (rows : List OldRow) → AllAbove b rows → above b rows ≡ rows
above_of_AllAbove b [] h = refl
above_of_AllAbove b (r ∷ rs) h = ground (arith, above_of_AllAbove b rs h.1)

AllAbove-above : (b : ℕ) (rows : List OldRow) → AllAbove b (above b rows)
AllAbove-above b [] = tt
AllAbove-above b (r ∷ rs) = ground (arith, AllAbove-above b rs, ltb→lt b r.msg_id)

pub above-above : (b c : ℕ) (rows : List OldRow) → b ≤ c → above c (above b rows) ≡ above c rows
above-above b c [] h = refl
above-above b c (r ∷ rs) h = ground (arith, above-above b c rs h)

weaken-AllAbove : (b c : ℕ) (rows : List OldRow) → b ≤ c → AllAbove c rows → AllAbove b rows
weaken-AllAbove b c [] h a = tt
weaken-AllAbove b c (r ∷ rs) h a = (omega (arith, a.0), weaken-AllAbove b c rs h a.1)

pub above-IsAscending : (b : ℕ) (rows : List OldRow) → IsAscending rows → IsAscending (above b rows)
above-IsAscending b [] h = tt
above-IsAscending b (r ∷ rs) h = elim (Bool-cases (ltb b r.msg_id)) [
  | inl e ↦
      rw
        (
          e,
          above_of_AllAbove b rs
              (weaken-AllAbove b r.msg_id rs (omega (arith, ltb→lt b r.msg_id e)) h.0),
        )
        h
  | inr e ↦ rw (e) (above-IsAscending b rs h.1)
]

last-AllAbove :
    (b : ℕ) (q : OldRow) (page rest : List OldRow)
    → AllAbove b (q ∷ (page ++ rest))
    → b < (last_row q page).msg_id
last-AllAbove b q [] rest h = h.0
last-AllAbove b q (r ∷ rs) rest h = last-AllAbove b r rs rest h.1

pub above-last :
    (r : OldRow) (page rest : List OldRow)
    → IsAscending (r ∷ (page ++ rest))
    → above (last_row r page).msg_id (r ∷ (page ++ rest)) ≡ rest
above-last r [] rest h = ground (arith, above_of_AllAbove r.msg_id rest h.0)
above-last r (q ∷ qs) rest h =
    ground (arith, last-AllAbove r.msg_id q qs rest h.0, above-last q qs rest h.1)

-- the rows behind a page that is not empty
pub above-page :
    (size bound : ℕ) (rows : List OldRow) (r : OldRow) (rs : List OldRow)
    → IsAscending rows
    → take size (above bound rows) ≡ r ∷ rs
    → above (last_row r rs).msg_id rows ≡ drop size (above bound rows)
above-page size bound rows r rs h e =
    let split =
      ap (λ p. p ++ drop size (above bound rows)) (sym e)
      ∙ take-append-drop size (above bound rows) in
    let later =
      last-AllAbove bound r rs (drop size (above bound rows))
        (subst (λ l. AllAbove bound l) (sym split) (AllAbove-above bound rows)) in
    sym (above-above bound (last_row r rs).msg_id rows (omega (arith, later)))
    ∙ ap (λ l. above (last_row r rs).msg_id l) (sym split)
    ∙ above-last r rs (drop size (above bound rows))
        (subst IsAscending (sym split) (above-IsAscending bound rows h))
