-- ===== src/Bot/Metrics/Paths/Cardinality.antt =====
-- The names of endpoints hold no identifiers (bot/metrics/paths.go).
use catalogger.Bot.Metrics.Paths.Matching.{replace_from-none, replace_from-some}
use catalogger.Bot.Metrics.Paths.{
  replace_all_literal, version_regexp, endpoint_metrics_name, is_digit, leading_digits, plus,
  match_all, replace_from, snowflake_regexp, path_rules, apply_rules, normalize_path, digits,
}
use catalogger.Base.{
  leb, if◌then◌else◌, branch, bytes, ℕ, zero, suc, ◌+◌, ◌≤◌, ◌<◌, ◌≡◌, refl, sym, ap, subst, ◌⊎◌,
  inl, inr, Bool, true, false, none, some, [], ◌∷◌, ◌++◌, arith,
}
use catalogger.Db.Crypt.{Text}

-- nowhere 15 digits in a row
unfoldable pub HasNoSnowflake : Text → Type 0
HasNoSnowflake [] = Unit
HasNoSnowflake (b ∷ bs) = (leading_digits (b ∷ bs) < 15) × HasNoSnowflake bs

match_all-digits :
    (n : ℕ) (t : Text)
    → (match_all (digits n ∷ []) t ≡ some (leading_digits t + 0))
      ⊎ ((match_all (digits n ∷ []) t ≡ none) × (leading_digits t < n))
unfolding match_all
match_all-digits n t =
    branch
      (λ o.
        (elim o [ none ↦ none | some k ↦ plus k (some 0) ] ≡ some (leading_digits t + 0))
        ⊎ ((elim o [ none ↦ none | some k ↦ plus k (some 0) ] ≡ none) × (leading_digits t < n)))
      (leb n (leading_digits t)) (some (leading_digits t)) none (λ e. inl refl)
      (λ e. inr (refl, ground arith))

abbrev replaced : ℕ → Text → Text
replaced k t = replace_from snowflake_regexp (λ matched. bytes "{snowflake}") k t

HasNoSnowflake-placeholder :
    (t : Text) → HasNoSnowflake t → HasNoSnowflake (bytes "{snowflake}" ++ t)
unfolding HasNoSnowflake
HasNoSnowflake-placeholder t h =
    let p : 0 < 15 = omega arith in (p, (p, (p, (p, (p, (p, (p, (p, (p, (p, (p, h)))))))))))

le_lt : (m n : ℕ) → m ≤ n → n < 15 → m < 15
le_lt m n h l = omega arith

counted_mono :
    (d : Bool) (m n : ℕ)
    → (if d then n + 1 else 0) < 15
    → (n < 15 → m ≤ n)
    → (if d then m + 1 else 0) ≤ (if d then n + 1 else 0)
counted_mono true m n h ih = let l = ih (omega arith) in omega arith
counted_mono false m n h ih = omega arith

leading_digits-cons :
    (b : ℕ) (s t : Text)
    → (leading_digits (b ∷ t) < 15)
    → (leading_digits t < 15 → leading_digits s ≤ leading_digits t)
    → leading_digits (b ∷ s) ≤ leading_digits (b ∷ t)
leading_digits-cons b s t h ih = counted_mono (is_digit b) _ _ h ih

leading_digits-replaced :
    (t : Text) → leading_digits t < 15 → leading_digits (replaced 0 t) ≤ leading_digits t
unfolding replace_from
leading_digits-replaced [] h = ground arith
leading_digits-replaced (b ∷ bs) h = elim (match_all-digits 15 (b ∷ bs)) [
  | inl e ↦
      subst (λ s. leading_digits s ≤ leading_digits (b ∷ bs))
        (sym (replace_from-some snowflake_regexp (λ matched. bytes "{snowflake}") b bs _ e))
        (omega arith)
  | inr (e, l) ↦
      subst (λ s. leading_digits s ≤ leading_digits (b ∷ bs))
        (sym (replace_from-none snowflake_regexp (λ matched. bytes "{snowflake}") b bs e))
        (leading_digits-cons b (replaced 0 bs) bs h (leading_digits-replaced bs))
]

HasNoSnowflake-replaced : (t : Text) (k : ℕ) → HasNoSnowflake (replaced k t)
unfolding HasNoSnowflake replace_from
HasNoSnowflake-replaced [] k = tt
HasNoSnowflake-replaced (b ∷ bs) (suc k) = HasNoSnowflake-replaced bs k
HasNoSnowflake-replaced (b ∷ bs) zero = elim (match_all-digits 15 (b ∷ bs)) [
  | inl e ↦
      subst HasNoSnowflake
        (sym (replace_from-some snowflake_regexp (λ matched. bytes "{snowflake}") b bs _ e))
        (HasNoSnowflake-placeholder _ (HasNoSnowflake-replaced bs _))
  | inr (e, l) ↦
      subst HasNoSnowflake
        (sym (replace_from-none snowflake_regexp (λ matched. bytes "{snowflake}") b bs e))
        (
          le_lt (leading_digits (b ∷ replaced 0 bs)) (leading_digits (b ∷ bs))
              (leading_digits-cons b (replaced 0 bs) bs l (leading_digits-replaced bs)) l,
          HasNoSnowflake-replaced bs 0,
        )
]

HasNoSnowflake-normalize_path : (path : Text) → HasNoSnowflake (normalize_path path)
unfolding normalize_path
HasNoSnowflake-normalize_path path = HasNoSnowflake-replaced (apply_rules path_rules path) 0

-- a space ends a run of digits
leading_digits-spaced : (s t : Text) → leading_digits (s ++ bytes " " ++ t) ≡ leading_digits s
leading_digits-spaced [] t = refl
leading_digits-spaced (b ∷ bs) t =
    ap (λ n. if is_digit b then n + 1 else 0) (leading_digits-spaced bs t)

HasNoSnowflake-spaced :
    (s t : Text) → HasNoSnowflake s → HasNoSnowflake t → HasNoSnowflake (s ++ bytes " " ++ t)
unfolding HasNoSnowflake
HasNoSnowflake-spaced [] t h g = let p : 0 < 15 = omega arith in (p, g)
HasNoSnowflake-spaced (b ∷ bs) t (l, h) g =
    (subst (λ n. n < 15) (sym (leading_digits-spaced (b ∷ bs) t)) l, HasNoSnowflake-spaced bs t h g)

-- Where the method has no run of 15 digits, the name under which a request is counted has none, whatever
-- its path: identifiers of 15 digits or more do not reach the names. Of the replacements only the last one
-- is used for this.
pub HasNoSnowflake-endpoint_metrics_name :
    (method path : Text)
    → HasNoSnowflake method
    → HasNoSnowflake (endpoint_metrics_name method path)
unfolding endpoint_metrics_name
HasNoSnowflake-endpoint_metrics_name method path h =
    HasNoSnowflake-spaced method (normalize_path (replace_all_literal version_regexp "" path)) h
      (HasNoSnowflake-normalize_path (replace_all_literal version_regexp "" path))
