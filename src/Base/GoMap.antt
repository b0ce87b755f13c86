-- ===== src/Base/GoMap.antt =====
-- Go's built-in `map[K]V`: an association list with one entry for a key. The order of the entries
-- is the order of insertion; Go leaves it open, so no theorem depends on it.
use mathlib.Core.List.{List, [], ◌∷◌}
use mathlib.Core.Path.{◌≡◌, refl, ap}
use mathlib.Core.Bool.{false}
use mathlib.Core.Option.{Option, none, some}
use Prim.Native.Nat.{suc, ◌+◌}
use native.Mathlib.Omega.{arith}
use catalogger.Base.Bools.{if◌then◌else◌}
use catalogger.Base.Eqs.{Eq, ◌==◌, count}
use catalogger.Base.Lists.{length}

abbrev pub GoMap : Type 0 → Type 0 → Type 0
GoMap K V = List (K × V)

module _ {K V : Type 0} where
  abbrev pub keys : GoMap K V → List K
  keys [] = []
  keys ((k, v) ∷ m) = k ∷ keys m

  abbrev pub values : GoMap K V → List V
  values [] = []
  values ((k, v) ∷ m) = v ∷ values m

module _ {K V : Type 0} ⦃e : Eq K⦄ where
  -- v, ok := m[k]
  unfoldable pub get : GoMap K V → K → Option V
  get [] k = none
  get ((j, v) ∷ m) k = if j == k then some v else get m k

  -- m[k] = v
  unfoldable pub put : GoMap K V → K → V → GoMap K V
  put [] k v = (k, v) ∷ []
  put ((j, w) ∷ m) k v = if j == k then (j, v) ∷ m else (j, w) ∷ put m k v

  -- delete(m, k)
  unfoldable pub del : GoMap K V → K → GoMap K V
  del [] k = []
  del ((j, w) ∷ m) k = if j == k then del m k else (j, w) ∷ del m k

  -- a key that no entry has
  abbrev pub Fresh : K → GoMap K V → Type 0
  Fresh k [] = Unit
  Fresh k ((j, v) ∷ m) = ((j == k) ≡ false) × Fresh k m

  -- one entry for a key
  abbrev pub IsMap : GoMap K V → Type 0
  IsMap [] = Unit
  IsMap ((k, v) ∷ m) = Fresh k m × IsMap m

  pub get-put :
      (m : GoMap K V) (k : K) (v : V) (j : K)
      → get (put m k v) j ≡ (if k == j then some v else get m j)
  unfolding get put
  get-put [] k v j = refl
  get-put ((i, w) ∷ m) k v j =
      ground (arith, e.test_iff k j, e.test_iff i k, e.test_iff i j, get-put m k v j)

  pub get-del : (m : GoMap K V) (k j : K) → get (del m k) j ≡ (if k == j then none else get m j)
  unfolding get del
  get-del [] k j = ground arith
  get-del ((i, w) ∷ m) k j =
      ground (arith, e.test_iff k j, e.test_iff i k, e.test_iff i j, get-del m k j)

  pub get_of_Fresh : (m : GoMap K V) (k : K) → Fresh k m → get m k ≡ none
  unfolding get
  get_of_Fresh [] k h = refl
  get_of_Fresh ((i, w) ∷ m) k h = rw (h.0) (get_of_Fresh m k h.1)

  Fresh-put :
      (m : GoMap K V) (k : K) (v : V) (j : K) → (k == j) ≡ false → Fresh j m → Fresh j (put m k v)
  unfolding put
  Fresh-put [] k v j h f = (h, tt)
  Fresh-put ((i, w) ∷ m) k v j h f = ground (arith, Fresh-put m k v j)

  Fresh-del : (m : GoMap K V) (k j : K) → Fresh j m → Fresh j (del m k)
  unfolding del
  Fresh-del [] k j f = tt
  Fresh-del ((i, w) ∷ m) k j f = ground (arith, Fresh-del m k j)

  pub Fresh-del_self : (m : GoMap K V) (k : K) → Fresh k (del m k)
  unfolding del
  Fresh-del_self [] k = tt
  Fresh-del_self ((i, w) ∷ m) k = ground (arith, Fresh-del_self m k)

  pub put-IsMap : (m : GoMap K V) (k : K) (v : V) → IsMap m → IsMap (put m k v)
  unfolding put
  put-IsMap [] k v h = (tt, tt)
  put-IsMap ((i, w) ∷ m) k v h =
      ground (arith, put-IsMap m k v, Fresh-put m k v i, e.test_iff i k, e.test_iff k i)

  pub del-IsMap : (m : GoMap K V) (k : K) → IsMap m → IsMap (del m k)
  unfolding del
  del-IsMap [] k h = tt
  del-IsMap ((i, w) ∷ m) k h = ground (arith, del-IsMap m k, Fresh-del m k i)

  pub length-put :
      (m : GoMap K V) (k : K) (v : V)
      → length (put m k v) ≡ elim (get m k) [ none ↦ length m + 1 | some _ ↦ length m ]
  unfolding put get
  length-put [] k v = refl
  length-put ((i, w) ∷ m) k v = ground (arith, length-put m k v)

  del_of_Fresh : (m : GoMap K V) (k : K) → Fresh k m → del m k ≡ m
  unfolding del
  del_of_Fresh [] k f = refl
  del_of_Fresh ((i, w) ∷ m) k f = ground (arith, del_of_Fresh m k f.1)

  pub length-del :
      (m : GoMap K V) (k : K)
      → IsMap m
      → length m ≡ elim (get m k) [ none ↦ length (del m k) | some _ ↦ length (del m k) + 1 ]
  unfolding del get
  length-del [] k h = refl
  length-del ((i, w) ∷ m) k h = ground (arith, length-del m k h.1, del_of_Fresh m k, e.test_iff i k)

  count_of_Fresh : (m : GoMap K V) (k : K) → Fresh k m → count (keys m) k ≡ 0
  count_of_Fresh [] k h = refl
  count_of_Fresh ((i, w) ∷ m) k h = rw (h.0) (count_of_Fresh m k h.1)

  -- a key stands once among the keys, any other never
  pub count-keys :
      (m : GoMap K V) (k : K)
      → IsMap m
      → count (keys m) k ≡ elim (get m k) [ none ↦ 0 | some _ ↦ 1 ]
  unfolding get
  count-keys [] k h = refl
  count-keys ((i, w) ∷ m) k h =
      ground (arith, e.test_iff i k, count-keys m k h.1, count_of_Fresh m i h.0, count_of_Fresh m k)

module _ {K V : Type 0} where
  pub length-keys : (m : GoMap K V) → length (keys m) ≡ length m
  length-keys [] = refl
  length-keys ((i, w) ∷ m) = ap suc (length-keys m)
