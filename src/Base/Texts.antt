-- ===== src/Base/Texts.antt =====
-- Go's strings as lists of bytes, and literals that are ASCII.
use Prim.Native.Nat.{ℕ}
use Prim.Native.Char.{code}
use Prim.Native.String.{String}
use mathlib.Core.Bool.{Bool, true, false, ◌&&◌}
use mathlib.Core.List.{List, [], ◌∷◌}
use catalogger.Base.Bools.{nat_beq}
use catalogger.Base.Eqs.{Eq}
use text.Mathlib.TextEquality.{Char-path}
use mathlib.Core.Path.{◌≡◌, refl, ap, ◌∙◌}
use mathlib.Core.Logic.{◌↔◌}
use native.Mathlib.Omega.{arith}

abbrev pub bytes : String → List ℕ
bytes String.[] = []
bytes (String.◌∷◌ c s) = code c ∷ bytes s

abbrev pub text_eq : List ℕ → List ℕ → Bool
text_eq [] [] = true
text_eq (a ∷ as') (b ∷ bs) = nat_beq a b && text_eq as' bs
text_eq _ _ = false

pub text_eq_iff : (a b : List ℕ) → (text_eq a b ≡ true) ↔ (a ≡ b)
text_eq_iff [] [] = (λ h. refl, λ h. refl)
text_eq_iff (a ∷ as') (b ∷ bs) = ground (arith, text_eq_iff as' bs)
text_eq_iff [] (b ∷ bs) = ground arith
text_eq_iff (a ∷ as') [] = ground arith

instance abbrev pub text_eq_instance : Eq (List ℕ)
text_eq_instance = record { test = text_eq; test_iff = text_eq_iff }

-- `s == ""`
abbrev pub is_empty : List ℕ → Bool
is_empty [] = true
is_empty (b ∷ bs) = false

pub bytes-injective : (s t : String) → bytes s ≡ bytes t → s ≡ t
bytes-injective String.[] String.[] h = refl
bytes-injective String.[] (String.◌∷◌ c t) h = absurd (ground arith)
bytes-injective (String.◌∷◌ c s) String.[] h = absurd (ground arith)
bytes-injective (String.◌∷◌ c s) (String.◌∷◌ d t) h =
    let same = Char-path c d (ground arith) in
    let rest = bytes-injective s t (ground arith) in
    ap (λ x. String.◌∷◌ x s) same ∙ ap (λ x. String.◌∷◌ d x) rest
