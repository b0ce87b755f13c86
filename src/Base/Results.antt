-- ===== src/Base/Results.antt =====
-- Go's errors as values. A function that returns `(T, error)` returns a `Result T`.
use Prim.Native.Nat.{ℕ}
use Prim.Native.String.{String}
use mathlib.Core.Path.{◌≡◌, refl, ap}
use mathlib.Core.Logic.{◌⊎◌, inl, inr}
use native.Mathlib.Omega.{arith}
use mathlib.Core.Bool.{Bool, true, false}

pub data Error : Type 0 where
  -- `errors.Sentinel` and `errors.New`
  sentinel : String → Error
  -- `errors.Wrap`
  wrapped : String → Error → Error
  -- an error of a library or of a service, by an HTTP status or another code
  external : ℕ → Error
  -- `errors.Append` of two errors
  appended : Error → Error → Error

pub data Result {ℓ} (A : Type ℓ) : Type ℓ where
  ok : A → Result A
  err : Error → Result A

-- `if err != nil { return err }`, and on with the value
infixl 5 ◌>>=◌
abbrev pub ◌>>=◌ {ℓ κ} : {T : Type ℓ} {U : Type κ} → Result T → (T → Result U) → Result U
err e >>= rest = err e
ok value >>= rest = rest value

-- `if err != nil { return errors.Wrap(err, msg) }`
abbrev pub wrap {ℓ} : {A : Type ℓ} → String → Result A → Result A
wrap msg (ok a) = ok a
wrap msg (err e) = err (wrapped msg e)

abbrev pub is_ok {ℓ} : {A : Type ℓ} → Result A → Bool
is_ok (ok a) = true
is_ok (err e) = false

pub Result-cases {ℓ} :
    {A : Type ℓ} (r : Result A) → ((a : A) × (r ≡ ok a)) ⊎ ((e : Error) × (r ≡ err e))
Result-cases (ok a) = inl (a, refl)
Result-cases (err e) = inr (e, refl)

pub bind-inv {ℓ κ} :
    {T : Type ℓ} {U : Type κ} (r : Result T) (rest : T → Result U) (u : U)
    → (r >>= rest) ≡ ok u
    → (t : T) × (r ≡ ok t) × (rest t ≡ ok u)
bind-inv (ok t) rest u e = (t, refl, e)
bind-inv (err x) rest u e = absurd (ground (arith))

pub ok-inj {ℓ} : {A : Type ℓ} (a b : A) → ok a ≡ ok b → a ≡ b
ok-inj a b e = ap (λ r. elim r [ ok x ↦ x | err x ↦ a ]) e
