-- ===== src/Store/Interface.antt =====
-- store/store.go: the role store as its clients see it. The laws are what a cache promises.
use catalogger.Base.{nat_eq}
use catalogger.Base.{if◌then◌else◌, ◌==◌, Error, Result, sentinel, ok, err, ℕ, ◌≡◌}
use catalogger.Discord.{Role}

abbrev pub err_not_found : Error
err_not_found = sentinel "value not found in store"

pub record RoleStore : Type 1 where
  pub State : Type 0
  pub role : State → ℕ → ℕ → Result Role
  pub set_role : State → ℕ → Role → State
  pub remove_role : State → ℕ → ℕ → State
  -- A role that was set is found, and no other role is touched.
  pub role-set_role :
      (s : State) (g : ℕ) (r : Role) (h id : ℕ)
      → role (set_role s g r) h id ≡ (if r.id == id then ok r else role s h id)
  -- A role that was removed is not found, and no other role is touched.
  pub role-remove_role :
      (s : State) (g id h j : ℕ)
      → role (remove_role s g id) h j ≡ (if id == j then err err_not_found else role s h j)
