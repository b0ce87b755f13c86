-- ===== src/Common/Set.antt =====
-- common/set.go: the concurrent set. Each method holds the mutex for its whole body, so it is one
-- atomic step on the map `m`; the methods that only read take and return no new state.
pub mod Refinement
pub mod Size
mod Tests
use catalogger.Base.{
  ℕ, Bool, true, false, not, Option, none, some, List, [], ◌∷◌, Eq, length as len,
}
use catalogger.Base.GoMap
use catalogger.Base.GoMap.{GoMap}

-- `struct{}`, the type that every key is mapped to.
pub data Entry : Type 0 where
  entry : Entry

pub record Set (T : Type 0) : Type 0 where
  pub m : GoMap T Entry

-- The second result of `v, ok := m[k]`.
abbrev pub found : {V : Type 0} → Option V → Bool
found none = false
found (some _) = true

module _ {T : Type 0} ⦃e : Eq T⦄ where
  -- The loop of `NewSet` and `Append`.
  put_all : GoMap T Entry → List T → GoMap T Entry
  put_all m [] = m
  put_all m (v ∷ vs) = put_all (GoMap.put m v entry) vs

  unfoldable pub new_set : List T → Set T
  unfolding put_all
  new_set initial = record { m = put_all [] initial }

  unfoldable pub add : Set T → T → Set T × Bool
  add s v = (record { m = GoMap.put s.m v entry }, not (found (GoMap.get s.m v)))

  unfoldable pub append : Set T → List T → Set T
  unfolding put_all
  append s vs = record { m = put_all s.m vs }

  unfoldable pub remove : Set T → T → Set T × Bool
  remove s v = (record { m = GoMap.del s.m v }, found (GoMap.get s.m v))

  unfoldable pub exists : Set T → T → Bool
  exists s v = found (GoMap.get s.m v)

module _ {T : Type 0} where
  unfoldable pub values : Set T → List T
  values s = GoMap.keys s.m

  unfoldable pub length : Set T → ℕ
  length s = len s.m
