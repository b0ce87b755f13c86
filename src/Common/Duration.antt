-- ===== src/Common/Duration.antt =====
-- common/duration/duration.go. A `time.Duration` is a number of nanoseconds, which may be negative.
-- Floating-point numbers, the decimal form of an integer and `english.OxfordWordSeries` are
-- parameters; of the floating-point quotients it is assumed that they are right for whole seconds
-- below 2 ^ 53, which a `float64` has without rounding.
use catalogger.Base.{
  nat_eq, ◌==◌, ltb, leb, if◌then◌else◌, bytes, ℕ, ◌+◌, ◌-◌, ◌*◌, ◌/◌, ◌<◌, String, ◌≡◌, Bool,
  false, not, List, [], ◌∷◌, ◌++◌, map,
}
pub mod Parts
mod Tests
use catalogger.Db.Crypt.{Text}

pub data ℤ : Type 0 where
  pos negsuc : ℕ → ℤ

-- the difference of two numbers, and of two integers
abbrev pub difference : ℕ → ℕ → ℤ
difference a b = if leb b a then pos (a - b) else negsuc (b - a - 1)

infixl 20 ◌-ℤ◌
abbrev pub ◌-ℤ◌ : ℤ → ℤ → ℤ
pos a -ℤ pos b = difference a b
pos a -ℤ negsuc b = pos (a + b + 1)
negsuc a -ℤ pos b = negsuc (a + b)
negsuc a -ℤ negsuc b = difference b a

-- an integer times a unit, which is not 0
abbrev pub times : ℤ → ℕ → ℤ
times (pos n) unit = pos (n * unit)
times (negsuc n) unit = negsuc ((n + 1) * unit - 1)

abbrev pub is_positive : ℤ → Bool
is_positive (pos n) = ltb 0 n
is_positive (negsuc n) = false

abbrev pub is_one : ℤ → Bool
is_one (pos n) = n == 1
is_one (negsuc n) = false

abbrev pub below_one : ℤ → Bool
below_one i = not (is_positive i)

abbrev pub second : ℕ
second = 1000000000

-- a day, and the units in seconds
abbrev pub hour_unit : ℕ
hour_unit = 3600

abbrev pub day_unit : ℕ
day_unit = 86400

abbrev pub month_unit : ℕ
month_unit = 2592000

abbrev pub year_unit : ℕ
year_unit = 31536000

pub record Floats : Type 1 where
  pub Float : Type 0
  -- `d.Seconds()`, a division by a constant, `int(math.Floor(x))`, `int(math.Round(x))`, `x > 0`
  pub seconds : ℤ → Float
  pub divide : Float → ℕ → Float
  pub floor : Float → ℤ
  pub round : Float → ℤ
  pub above_zero : Float → Bool
  pub floor_divide :
      (s k : ℕ)
      → s < 9007199254740992
      → 0 < k
      → floor (divide (seconds (pos (s * 1000000000))) k) ≡ pos (s / k)
  pub floor_divide_twice :
      (s j k : ℕ)
      → s < 9007199254740992
      → 0 < j
      → 0 < k
      → floor (divide (divide (seconds (pos (s * 1000000000))) j) k) ≡ pos (s / j / k)
  pub round_seconds :
      (s : ℕ) → s < 9007199254740992 → round (seconds (pos (s * 1000000000))) ≡ pos s
  pub above_zero_seconds :
      (s : ℕ) → s < 9007199254740992 → above_zero (seconds (pos (s * 1000000000))) ≡ ltb 0 s

-- a number of units, with the unit's name
abbrev pub Part : Type 0
Part = ℤ × String

module _ (f : Floats) where
  -- what is left of the duration without n units
  abbrev pub left : ℤ → ℤ → ℕ → ℤ
  left d n unit = d -ℤ times n (unit * second)

  unfoldable pub years : ℤ → ℤ × ℤ
  years d = let n = f.floor (f.divide (f.divide (f.seconds d) 86400) 365) in (n, left d n year_unit)

  unfoldable pub months : ℤ → ℤ × ℤ
  months d =
      let n = f.floor (f.divide (f.divide (f.seconds d) 86400) 30) in (n, left d n month_unit)

  unfoldable pub days : ℤ → ℤ × ℤ
  days d = let n = f.floor (f.divide (f.seconds d) 86400) in (n, left d n day_unit)

  unfoldable pub hours : ℤ → ℤ × ℤ
  hours d = let n = f.floor (f.divide (f.seconds d) 3600) in (n, left d n hour_unit)

  unfoldable pub minutes : ℤ → ℤ × ℤ
  minutes d = let n = f.floor (f.divide (f.seconds d) 60) in (n, left d n 60)

  -- `if n > 0 { s = append(s, plural(n, word)) }`
  abbrev pub part : ℤ → String → List Part
  part n word = if is_positive n then (n, word) ∷ [] else []

  unfoldable pub parts_with_year : ℤ → List Part
  parts_with_year d =
      let (ys, d1) = years d in
      let (ms, d2) = months d1 in
      let (ds, d3) = days d2 in
      let (hs, d4) = hours d3 in
      part ys "year" ++ part ms "month" ++ part ds "day" ++ part hs "hour"

  unfoldable pub parts_without_year : ℤ → List Part
  parts_without_year d =
      let (ms, d1) = months d in
      let (ds, d2) = days d1 in
      let (hs, d3) = hours d2 in
      let (mins, d4) = minutes d3 in
      part ms "month" ++ part ds "day" ++ part hs "hour" ++ part mins "minute"

  abbrev pub seconds_part : ℤ → List Part
  seconds_part d = if f.above_zero (f.seconds d) then (f.round (f.seconds d), "second") ∷ [] else []

  unfoldable pub parts_without_month : ℤ → List Part
  parts_without_month d =
      let (ds, d1) = days d in
      let (hs, d2) = hours d1 in
      let (mins, d3) = minutes d2 in
      part ds "day" ++ part hs "hour" ++ part mins "minute" ++ seconds_part d3

  unfoldable pub parts : ℤ → List Part
  parts d =
      if below_one (months d).0
      then parts_without_month d
      else if below_one (years d).0
      then parts_without_year d
      else parts_with_year d

-- `strconv.Itoa` and `english.OxfordWordSeries(s, "and")`
pub record English : Type 0 where
  pub itoa : ℤ → Text
  pub series : List Text → Text

module _ (f : Floats) (en : English) where
  abbrev pub plural : Part → Text
  plural (i, word) =
      if is_one i
      then bytes "1 " ++ bytes word
      else en.itoa i ++ bytes " " ++ bytes word ++ bytes "s"

  unfoldable pub format : ℤ → Text
  format d = en.series (map plural (parts f d))

  -- `since` is `time.Since(t)` and `until` is `time.Until(t)`
  unfoldable pub format_time : ℤ → ℤ → Text
  format_time (negsuc n) until = bytes "until " ++ format until ++ bytes " from now"
  format_time (pos n) until = format (pos n) ++ bytes " ago"
