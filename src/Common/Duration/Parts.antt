-- ===== src/Common/Duration/Parts.antt =====
-- What the parts of a duration add up to (common/duration/duration.go).
use catalogger.Common.Duration.{
  below_one, parts_without_year, parts_with_year, parts, seconds_part, parts_without_month, years,
  months, minutes, hours, difference, second, hour_unit, day_unit, month_unit, year_unit, Part,
  days, part, ℤ, Floats, pos, negsuc,
}
use catalogger.Base.{
  branch, ◌∙◌, ap, string_eq, ltb, if◌then◌else◌, ◌==◌, ℕ, zero, suc, ◌+◌, ◌-◌, ◌*◌, ◌/◌, ◌%◌, ◌≤◌,
  ◌<◌, String, ◌≡◌, List, [], ◌∷◌, ◌++◌, arith,
}

-- the seconds in a unit, and in the parts
abbrev pub unit_seconds : String → ℕ
unit_seconds word =
    if word == "year"
    then year_unit
    else if word == "month"
    then month_unit
    else if word == "day"
    then day_unit
    else if word == "hour"
    then hour_unit
    else if word == "minute"
    then 60
    else 1

abbrev pub count_of : ℤ → ℕ
count_of (pos n) = n
count_of (negsuc n) = 0

abbrev pub total_seconds : List Part → ℕ
total_seconds [] = 0
total_seconds ((n, word) ∷ ps) = count_of n * unit_seconds word + total_seconds ps

-- an independent description: the seconds that a duration of this many whole seconds is given with
abbrev pub shown_seconds : ℕ → ℕ
shown_seconds s =
    if ltb s month_unit then s else if ltb s year_unit then s - s % 60 else s - s % 3600

module _ (f : Floats) where
  total-append :
      (ps qs : List Part) → total_seconds (ps ++ qs) ≡ total_seconds ps + total_seconds qs
  total-append [] qs = omega arith
  total-append ((n, word) ∷ ps) qs = omega (arith, total-append ps qs)

  total-part : (n : ℕ) (word : String) → total_seconds (part f (pos n) word) ≡ n * unit_seconds word
  total-part zero word = omega arith
  total-part (suc n) word = ground arith

  difference_sum : (a b c : ℕ) → a ≡ b + c → difference a b ≡ pos c
  difference_sum a b c h = ground arith

  same_parts : {a b : ℕ} {x y : ℤ} → a ≡ b → x ≡ y → ◌≡◌ {A = ℤ × ℤ} (pos a, x) (pos b, y)
  same_parts {a} {b} {x} {y} p q = ap (λ n. (pos n, x)) p ∙ ap (λ l. (pos b, l)) q

  days_whole :
      (s : ℕ)
      → s < 9007199254740992
      → days f (pos (s * second)) ≡ (pos (s / day_unit), pos (s % day_unit * second))
  unfolding days
  days_whole s h = rw (f.floor_divide s 86400 h (omega arith)) (
      ap (λ l. (pos (s / 86400), l))
        (difference_sum (s * 1000000000) (s / 86400 * 86400000000000) (s % 86400 * 1000000000)
          (omega arith)))

  hours_whole :
      (s : ℕ)
      → s < 9007199254740992
      → hours f (pos (s * second)) ≡ (pos (s / hour_unit), pos (s % hour_unit * second))
  unfolding hours
  hours_whole s h = rw (f.floor_divide s 3600 h (omega arith)) (
      ap (λ l. (pos (s / 3600), l))
        (difference_sum (s * 1000000000) (s / 3600 * 3600000000000) (s % 3600 * 1000000000)
          (omega arith)))

  minutes_whole :
      (s : ℕ)
      → s < 9007199254740992
      → minutes f (pos (s * second)) ≡ (pos (s / 60), pos (s % 60 * second))
  unfolding minutes
  minutes_whole s h = rw (f.floor_divide s 60 h (omega arith)) (
      ap (λ l. (pos (s / 60), l))
        (difference_sum (s * 1000000000) (s / 60 * 60000000000) (s % 60 * 1000000000)
          (omega arith)))

  months_whole :
      (s : ℕ)
      → s < 9007199254740992
      → months f (pos (s * second)) ≡ (pos (s / month_unit), pos (s % month_unit * second))
  unfolding months
  months_whole s h = rw (f.floor_divide_twice s 86400 30 h (omega arith) (omega arith)) (
      same_parts (omega arith) (
        difference_sum (s * 1000000000) (s / 86400 / 30 * 2592000000000000)
          (s % 2592000 * 1000000000) (omega arith)))

  years_whole :
      (s : ℕ)
      → s < 9007199254740992
      → years f (pos (s * second)) ≡ (pos (s / year_unit), pos (s % year_unit * second))
  unfolding years
  years_whole s h = rw (f.floor_divide_twice s 86400 365 h (omega arith) (omega arith)) (
      same_parts (omega arith) (
        difference_sum (s * 1000000000) (s / 86400 / 365 * 31536000000000000)
          (s % 31536000 * 1000000000) (omega arith)))

  total-seconds_part :
      (s : ℕ) → s < 9007199254740992 → total_seconds (seconds_part f (pos (s * second))) ≡ s
  total-seconds_part s h =
      rw (f.above_zero_seconds s h, f.round_seconds s h)
        (branch (λ ps. total_seconds ps ≡ s) (ltb 0 s) ((pos s, "second") ∷ []) []
          (λ v. omega arith) (λ v. ground arith))

  total-two :
      (ps qs : List Part) (t u : ℕ)
      → total_seconds ps ≡ t
      → total_seconds qs ≡ u
      → total_seconds (ps ++ qs) ≡ t + u
  total-two ps qs t u h k =
      total-append ps qs ∙ ap (λ n. n + total_seconds qs) h ∙ ap (λ n. t + n) k

  -- four parts, as the functions append them
  total-four :
      (a b c : ℕ) (x y z : String) (ps : List Part) (t : ℕ)
      → total_seconds ps ≡ t
      → total_seconds (part f (pos a) x ++ part f (pos b) y ++ part f (pos c) z ++ ps)
        ≡ a * unit_seconds x + b * unit_seconds y + c * unit_seconds z + t
  total-four a b c x y z ps t h =
      total-two _ ps _ t
        (total-two _ _ _ _ (total-two _ _ _ _ (total-part a x) (total-part b y)) (total-part c z)) h

  total-parts_without_month :
      (s : ℕ) → s < 9007199254740992 → total_seconds (parts_without_month f (pos (s * second))) ≡ s
  unfolding parts_without_month
  total-parts_without_month s h =
      rw
        (
          days_whole s h,
          hours_whole (s % 86400) (omega arith),
          minutes_whole (s % 86400 % 3600) (omega arith),
        )
        (total-four (s / 86400) (s % 86400 / 3600) (s % 86400 % 3600 / 60) "day" "hour" "minute" _ _
            (total-seconds_part (s % 86400 % 3600 % 60) (omega arith))
          ∙ omega arith)

  total-parts_without_year :
      (s : ℕ)
      → s < 9007199254740992
      → total_seconds (parts_without_year f (pos (s * second))) ≡ s - s % 60
  unfolding parts_without_year
  total-parts_without_year s h =
      rw
        (
          months_whole s h,
          days_whole (s % 2592000) (omega arith),
          hours_whole (s % 2592000 % 86400) (omega arith),
          minutes_whole (s % 2592000 % 86400 % 3600) (omega arith),
        )
        (total-four (s / 2592000) (s % 2592000 / 86400) (s % 2592000 % 86400 / 3600) "month" "day"
            "hour" _ _ (total-part (s % 2592000 % 86400 % 3600 / 60) "minute")
          ∙ omega arith)

  total-parts_with_year :
      (s : ℕ)
      → s < 9007199254740992
      → total_seconds (parts_with_year f (pos (s * second))) ≡ s - s % 3600
  unfolding parts_with_year
  total-parts_with_year s h =
      rw
        (
          years_whole s h,
          months_whole (s % 31536000) (omega arith),
          days_whole (s % 31536000 % 2592000) (omega arith),
          hours_whole (s % 31536000 % 2592000 % 86400) (omega arith),
        )
        (total-four (s / 31536000) (s % 31536000 / 2592000) (s % 31536000 % 2592000 / 86400) "year"
            "month" "day" _ _ (total-part (s % 31536000 % 2592000 % 86400 / 3600) "hour")
          ∙ omega arith)

-- Of a duration of whole seconds, fewer than 2 ^ 53, the parts that are written add up to all of it
-- below a month (30 days), to its whole minutes below a year (365 days), and to its whole hours from
-- a year on.
pub total-parts :
    (f : Floats) (s : ℕ)
    → s < 9007199254740992
    → total_seconds (parts f (pos (s * second))) ≡ shown_seconds s
unfolding parts
total-parts f s h =
    rw (months_whole f s h, years_whole f s h)
      (branch (λ ps. total_seconds ps ≡ shown_seconds s) (below_one (pos (s / 2592000))) _ _
        (λ v. total-parts_without_month f s h ∙ shown_small (ground arith))
        (λ v.
          branch (λ ps. total_seconds ps ≡ shown_seconds s) (below_one (pos (s / 31536000))) _ _
            (λ v'. total-parts_without_year f s h ∙ shown_middle (ground arith) (ground arith))
            (λ v'. total-parts_with_year f s h ∙ shown_large (ground arith))))
  where
    shown_small : s < 2592000 → s ≡ shown_seconds s
    shown_small k = ground arith

    shown_middle : 2592000 ≤ s → s < 31536000 → s - s % 60 ≡ shown_seconds s
    shown_middle j k = ground arith

    shown_large : 31536000 ≤ s → s - s % 3600 ≡ shown_seconds s
    shown_large k = ground arith
