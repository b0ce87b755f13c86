-- ===== src/Common/Duration/Tests.antt =====
-- A duration of a day, two hours and five seconds, with quotients of whole numbers.
use catalogger.Base.{ltb, ℕ, ◌*◌, ◌/◌, ◌≡◌, ap, arith}
use catalogger.Common.Duration.{second, parts, ℤ, Floats, pos, negsuc}
use catalogger.Common.Duration.Parts.{total_seconds, total-parts}

abbrev whole_seconds : ℤ → ℕ
whole_seconds (pos n) = n / 1000000000
whole_seconds (negsuc n) = 0

whole_back : (s : ℕ) → s * 1000000000 / 1000000000 ≡ s
whole_back s = omega arith

-- whole numbers in the place of floating-point numbers
abbrev whole : Floats
whole = record {
  Float = ℕ;
  seconds = whole_seconds;
  divide = λ x k. x / k;
  floor = pos;
  round = pos;
  above_zero = λ x. ltb 0 x;
  floor_divide = λ s k h p. ap (λ x. pos (x / k)) (whole_back s);
  floor_divide_twice = λ s j k h p q. ap (λ x. pos (x / j / k)) (whole_back s);
  round_seconds = λ s h. ap pos (whole_back s);
  above_zero_seconds = λ s h. ap (λ x. ltb 0 x) (whole_back s);
}

total-parts_example : total_seconds (parts whole (pos (93605 * second))) ≡ 93605
total-parts_example = total-parts whole 93605 (omega arith)
