-- ===== src/Store/Slice.antt =====
-- store/memory/store.go: `remove` and `contains` on slices. `remove` works in place: it returns a
-- slice, and it may also move elements in the array that its argument keeps pointing to. So its
-- model returns both, the slice and what the argument holds afterwards.
use catalogger.Base.{
  if◌then◌else◌, ◌==◌, ==_refl, contains, Eq, ◌≡◌, refl, ap, false, List, [], ◌∷◌, ◌++◌, arith,
}

module _ {ℓ} {T : Type ℓ} where
  -- the argument's last cell, which the in-place `append` leaves as it was
  abbrev pub last_cell : T → List T → List T
  last_cell x [] = x ∷ []
  last_cell x (y ∷ ys) = last_cell y ys

module _ {T : Type 0} ⦃e : Eq T⦄ where
  -- from the second element on: the last one is cut off, one in the middle is shifted over
  shift : List T → T → List T × List T
  shift [] val = ([], [])
  shift (x ∷ []) val = if x == val then ([], x ∷ []) else (x ∷ [], x ∷ [])
  shift (x ∷ y ∷ ys) val =
      let rest = shift (y ∷ ys) val in
      if x == val then (y ∷ ys, (y ∷ ys) ++ last_cell y ys) else (x ∷ rest.0, x ∷ rest.1)

  -- the first element is cut off by moving the start of the slice
  unfoldable pub remove : List T → T → List T × List T
  unfolding shift
  remove [] val = ([], [])
  remove (x ∷ xs) val =
      let rest = shift xs val in if x == val then (xs, x ∷ xs) else (x ∷ rest.0, x ∷ rest.1)

  -- the specification: all but the first occurrence
  abbrev pub without_first : List T → T → List T
  without_first [] val = []
  without_first (x ∷ xs) val = if x == val then xs else x ∷ without_first xs val

  shift-returns : (xs : List T) (val : T) → (shift xs val).0 ≡ without_first xs val
  unfolding shift
  shift-returns [] val = refl
  shift-returns (x ∷ []) val = ground arith
  shift-returns (x ∷ y ∷ ys) val = ground (arith, shift-returns (y ∷ ys) val)

  -- The slice that `remove` returns is the argument without the first occurrence of the value.
  pub remove-returns : (xs : List T) (val : T) → (remove xs val).0 ≡ without_first xs val
  unfolding remove
  remove-returns [] val = refl
  remove-returns (x ∷ xs) val = ground (arith, shift-returns xs val)

  shift-keeps : (xs : List T) (val : T) → contains xs val ≡ false → (shift xs val).1 ≡ xs
  unfolding shift
  shift-keeps [] val h = refl
  shift-keeps (x ∷ []) val h = ground arith
  shift-keeps (x ∷ y ∷ ys) val h = ground (arith, shift-keeps (y ∷ ys) val)

  pub remove-keeps : (xs : List T) (val : T) → contains xs val ≡ false → (remove xs val).1 ≡ xs
  unfolding remove
  remove-keeps [] val h = refl
  remove-keeps (x ∷ xs) val h = ground (arith, shift-keeps xs val)

  last_cell-append : (x : T) (xs : List T) (z : T) → last_cell x (xs ++ z ∷ []) ≡ z ∷ []
  last_cell-append x [] z = refl
  last_cell-append x (y ∷ ys) z = last_cell-append y ys z

  -- one element in the middle: everything after it moves down, and the last cell stays
  shift_middle :
      (pre mid : List T) (val z : T)
      → contains pre val ≡ false
      → (shift (pre ++ val ∷ (mid ++ z ∷ [])) val).1 ≡ pre ++ ((mid ++ z ∷ []) ++ z ∷ [])
  unfolding shift
  shift_middle [] [] val z h = rw (==_refl val) refl
  shift_middle [] (m ∷ ms) val z h =
      rw (==_refl val) (ap (λ t. (m ∷ ms ++ z ∷ []) ++ t) (last_cell-append m ms z))
  shift_middle (p ∷ []) mid val z h = ground (arith, shift_middle [] mid val z refl)
  shift_middle (p ∷ q ∷ ps) mid val z h = ground (arith, shift_middle (q ∷ ps) mid val z)

  -- The array behind the argument: without a value that is not first and not last, its last
  -- element stands twice.
  pub remove_middle :
      (p : T) (pre mid : List T) (val z : T)
      → contains (p ∷ pre) val ≡ false
      → (remove (p ∷ pre ++ val ∷ (mid ++ z ∷ [])) val).1 ≡ p ∷ pre ++ ((mid ++ z ∷ []) ++ z ∷ [])
  unfolding remove
  remove_middle p pre mid val z h = ground (arith, shift_middle pre mid val z)
