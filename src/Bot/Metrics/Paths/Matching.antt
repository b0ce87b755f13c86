-- ===== src/Bot/Metrics/Paths/Matching.antt =====
-- What the expressions of bot/metrics/paths.go match, and what they leave as it is.
use catalogger.Base.{
  nat_eq, leb, if◌then◌else◌, Bool-cases, length, take, drop, ◌==◌, contains, bytes, is_empty, ℕ,
  zero, suc, ◌+◌, ◌-◌, String, ◌≡◌, refl, sym, ap, ◌∙◌, subst, inl, inr, Bool, true, false, not,
  ◌&&◌, none, some, List, [], ◌∷◌, ◌++◌, arith,
}
use mathlib.Core.List.{append-nil}
use catalogger.Db.Crypt.{Text}
use catalogger.Bot.Metrics.Paths.{
  plus, match_all, digits, leading_digits, except, is_digit, leading_others, is_prefix,
  replace_from, Atom, lit,
}

module _ (re : List Atom) (by : Text → Text) where
  pub replace_from-none :
      (b : ℕ) (bs : Text)
      → match_all re (b ∷ bs) ≡ none
      → replace_from re by 0 (b ∷ bs) ≡ b ∷ replace_from re by 0 bs
  unfolding replace_from
  replace_from-none b bs e =
      ap
        (λ m. elim m [
          | none ↦ b ∷ replace_from re by zero bs
          | some n ↦ by (take n (b ∷ bs)) ++ replace_from re by (n - 1) bs
        ])
        e

  pub replace_from-some :
      (b : ℕ) (bs : Text) (n : ℕ)
      → match_all re (b ∷ bs) ≡ some n
      → replace_from re by 0 (b ∷ bs) ≡ by (take n (b ∷ bs)) ++ replace_from re by (n - 1) bs
  unfolding replace_from
  replace_from-some b bs n e =
      ap
        (λ m. elim m [
          | none ↦ b ∷ replace_from re by zero bs
          | some n ↦ by (take n (b ∷ bs)) ++ replace_from re by (n - 1) bs
        ])
        e

abbrev pub all_digits : Text → Bool
all_digits [] = true
all_digits (b ∷ bs) = is_digit b && all_digits bs

-- one digit or more, and one byte or more without a slash
abbrev pub is_number : Text → Bool
is_number t = not (is_empty t) && all_digits t

abbrev pub is_segment : Text → Bool
is_segment t = not (is_empty t) && not (contains t 47)

pub prefix-contains :
    (l t : Text) → contains l 47 ≡ true → contains t 47 ≡ false → is_prefix l t ≡ false
prefix-contains [] t h g = absurd (ground arith)
prefix-contains (a ∷ as') [] h g = refl
prefix-contains (a ∷ as') (b ∷ bs) h g = ground (arith, prefix-contains as' bs)

leading_digits-stop :
    (ds t : Text) → all_digits ds ≡ true → leading_digits (ds ++ 47 ∷ t) ≡ length ds
leading_digits-stop [] t h = refl
leading_digits-stop (b ∷ bs) t h = ground (arith, leading_digits-stop bs t)

leading_others-all : (t : Text) → contains t 47 ≡ false → leading_others (47 ∷ []) t ≡ length t
leading_others-all [] h = refl
leading_others-all (b ∷ bs) h = ground (arith, leading_others-all bs)

drop-length : (s t : Text) → drop (length s) (s ++ t) ≡ t
drop-length [] t = refl
drop-length (b ∷ bs) t = drop-length bs t

pub match_all-lit :
    (s : String) (rest : List Atom) (t : Text)
    → is_prefix (bytes s) t ≡ false
    → match_all (lit s ∷ rest) t ≡ none
unfolding match_all
match_all-lit s rest t h =
    ap
      (λ b. elim (if b then some (length (bytes s)) else none) [
        | none ↦ none
        | some n ↦ plus n (match_all rest (drop n t))
      ])
      h

-- the rest of a match is skipped
pub replace_from-skip :
    (re : List Atom) (by : Text → Text) (s t : Text)
    → replace_from re by (length s) (s ++ t) ≡ replace_from re by 0 t
unfolding replace_from
replace_from-skip re by [] t = refl
replace_from-skip re by (b ∷ bs) t = replace_from-skip re by bs t

-- An expression that starts with a literal between slashes.
module _ (s : String) (rest : List Atom) (by : Text → Text) (l : Text) (starts : bytes s ≡ 47 ∷ l)
    (closed : contains l 47 ≡ true) where
  unfoldable pub IsKept : Text → Type 0
  IsKept t = replace_from (lit s ∷ rest) by 0 t ≡ t

  pub cons-IsKept :
      (b : ℕ) (bs : Text) → is_prefix (47 ∷ l) (b ∷ bs) ≡ false → IsKept bs → IsKept (b ∷ bs)
  unfolding IsKept
  cons-IsKept b bs h k =
      replace_from-none (lit s ∷ rest) by b bs
        (match_all-lit s rest (b ∷ bs) (ap (λ p. is_prefix p (b ∷ bs)) starts ∙ h))
      ∙ ap (λ t. b ∷ t) k

  pub word-IsKept : (u t : Text) → contains u 47 ≡ false → IsKept t → IsKept (u ++ t)
  word-IsKept [] t h k = k
  word-IsKept (b ∷ bs) t h k =
      cons-IsKept b (bs ++ t) (ground arith) (word-IsKept bs t (ground arith) k)

  nil-IsKept : IsKept []
  unfolding IsKept replace_from
  nil-IsKept = refl

  digits-IsKept : (ds t : Text) → all_digits ds ≡ true → IsKept t → IsKept (ds ++ t)
  digits-IsKept [] t h k = k
  digits-IsKept (b ∷ bs) t h k =
      cons-IsKept b (bs ++ t) (ground arith) (digits-IsKept bs t (ground arith) k)

  pub tail-IsKept :
      (ds t : Text) → all_digits ds ≡ true → contains t 47 ≡ false → IsKept (ds ++ 47 ∷ t)
  tail-IsKept ds t h g = digits-IsKept ds (47 ∷ t) h (
      cons-IsKept 47 t (prefix-contains l t closed g)
        (subst IsKept (append-nil t) (word-IsKept t [] g nil-IsKept)))

pub other_byte : (c d : ℕ) → is_digit c ≡ false → is_digit d ≡ true → (c == d) ≡ false
other_byte c d h g = elim (Bool-cases (c == d)) [
  | inr e ↦ e
  | inl e ↦ absurd (true_false (sym g ∙ ap is_digit (sym ((nat_eq.test_iff c d).0 e)) ∙ h))
]
  where
    true_false : true ≡ false → ⊥
    true_false x = ground arith

pub is_prefix-other : (c b : ℕ) (l t : Text) → (c == b) ≡ false → is_prefix (c ∷ l) (b ∷ t) ≡ false
is_prefix-other c b l t h = ap (λ x. x && is_prefix l t) h

pub match_all-digits_slash :
    (rest : List Atom) (ds t : Text)
    → is_number ds ≡ true
    → match_all (digits 1 ∷ rest) (ds ++ 47 ∷ t) ≡ plus (length ds) (match_all rest (47 ∷ t))
unfolding match_all
match_all-digits_slash rest [] t h = absurd (ground arith)
match_all-digits_slash rest (d ∷ ds) t h =
    ap
      (λ k. elim (if leb 1 k then some k else none) [
        | none ↦ none
        | some n ↦ plus n (match_all rest (drop n (d ∷ (ds ++ 47 ∷ t))))
      ])
      (leading_digits-stop (d ∷ ds) t (number h))
    ∙ ap
        (λ b. elim (if b then some (length (d ∷ ds)) else none) [
          | none ↦ none
          | some n ↦ plus n (match_all rest (drop n (d ∷ (ds ++ 47 ∷ t))))
        ])
        (positive (length ds))
    ∙ ap (λ u. plus (length (d ∷ ds)) (match_all rest u)) (drop-length (d ∷ ds) (47 ∷ t))
  where
    number : is_number (d ∷ ds) ≡ true → all_digits (d ∷ ds) ≡ true
    number x = ground arith

    positive : (n : ℕ) → leb 1 (suc n) ≡ true
    positive n = ground arith

pub match_all-segment :
    (t : Text) → is_segment t ≡ true → match_all (except (47 ∷ []) ∷ []) t ≡ some (length t + 0)
unfolding match_all
match_all-segment [] g = absurd (ground arith)
match_all-segment (b ∷ bs) g =
    ap (λ k. elim (if leb 1 k then some k else none) [ none ↦ none | some n ↦ plus n (some 0) ])
      (leading_others-all (b ∷ bs) (segment g))
    ∙ ap
        (λ x. elim (if x then some (length (b ∷ bs)) else none) [
          | none ↦ none
          | some n ↦ plus n (some 0)
        ])
        (positive (length bs))
  where
    segment : is_segment (b ∷ bs) ≡ true → contains (b ∷ bs) 47 ≡ false
    segment x = ground arith

    positive : (n : ℕ) → leb 1 (suc n) ≡ true
    positive n = ground arith

-- a match of the whole text
pub replace_from-whole :
    (re : List Atom) (by : Text → Text) (b : ℕ) (bs : Text)
    → match_all re (b ∷ bs) ≡ some (length (b ∷ bs))
    → replace_from re by 0 (b ∷ bs) ≡ by (b ∷ bs)
unfolding replace_from
replace_from-whole re by b bs e =
    replace_from-some re by b bs (length (b ∷ bs)) e
    ∙ ap (λ n. by (take (length (b ∷ bs)) (b ∷ bs)) ++ replace_from re by n bs)
        (one_less (length bs))
    ∙ ap (λ t. by t ++ replace_from re by (length bs) bs) (take-length (b ∷ bs))
    ∙ ap (λ t. by (b ∷ bs) ++ t)
        (ap (λ t. replace_from re by (length bs) t) (sym (append-nil bs))
          ∙ replace_from-skip re by bs [])
    ∙ append-nil (by (b ∷ bs))
  where
    one_less : (n : ℕ) → suc n - 1 ≡ n
    one_less n = omega arith

    take-length : (t : Text) → take (length t) t ≡ t
    take-length [] = refl
    take-length (x ∷ xs) = ap (λ t. x ∷ t) (take-length xs)
