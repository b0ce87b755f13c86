-- ===== src/Common/Map.antt =====
-- common/map.go: the concurrent map. Each method but `Values` holds the mutex for its whole body,
-- so it is one atomic step on the map `m`. A Go callback that changes the raw map it is given is a
-- function from the old map to the new one.
pub mod Refinement
mod Tests
use catalogger.Base.{length as len}
use catalogger.Base.{Eq, ℕ, Bool, Option, List, []}
use catalogger.Base.GoMap
use catalogger.Base.GoMap.{GoMap}
use catalogger.Common.Set.{found}

pub record Map (K V : Type 0) : Type 0 where
  pub m : GoMap K V

module _ {K V : Type 0} where
  unfoldable pub new_map : Map K V
  new_map = record { m = [] }

  unfoldable pub length : Map K V → ℕ
  length m = len m.m

  unfoldable pub values : Map K V → List V
  values m = GoMap.values m.m

  -- what the callback sees
  unfoldable pub read_func {ℓ} : {A : Type ℓ} → Map K V → (GoMap K V → A) → A
  read_func m fn = fn m.m

  unfoldable pub write_func : Map K V → (GoMap K V → GoMap K V) → Map K V
  write_func m fn = record { m = fn m.m }

module _ {K V : Type 0} ⦃e : Eq K⦄ where
  unfoldable pub set : Map K V → K → V → Map K V
  set m k v = record { m = GoMap.put m.m k v }

  -- The value is Go's zero value where the key is missing: `none`, with `ok` false.
  unfoldable pub get : Map K V → K → Option V
  get m k = GoMap.get m.m k

  unfoldable pub remove : Map K V → K → Map K V × Bool
  remove m k = (record { m = GoMap.del m.m k }, found (GoMap.get m.m k))

  unfoldable pub exists : Map K V → K → Bool
  exists m k = found (GoMap.get m.m k)
