-- ===== src/Store/Memory/Roles.antt =====
-- store/memory/role.go and store/memory/guild.go, and the role store as an implementation of the
-- interface of store/store.go.
use catalogger.Base.{nat_eq}
use catalogger.Base.{if◌then◌else◌, ◌==◌, Result, ok, err, ℕ, ◌≡◌, none, some, List}
use catalogger.Base.GoMap
use catalogger.Base.GoMap.{GoMap, get-put, get-del}
use catalogger.Discord.{Role, Guild}
use catalogger.Store.Interface.{err_not_found, RoleStore}
use catalogger.Store.Memory.Index.{Index, list, find, set_one, set_many, remove_one, remove_many}
use catalogger.Store.Memory.Index.Laws.{find-set_one, find-remove_one}

-- The fields `roles` and `guildRoles` of the store.
abbrev pub Roles : Type 0
Roles = Index Role

abbrev pub role_key : Role → ℕ
role_key r = r.id

unfoldable pub roles : Roles → ℕ → Result (List Role)
roles s guild = list s guild

-- The guild is not looked at.
unfoldable pub role : Roles → ℕ → ℕ → Result Role
role s guild i = find s i

unfoldable pub set_role : Roles → ℕ → Role → Roles
set_role s guild r = set_one role_key s guild r

unfoldable pub set_roles : Roles → ℕ → List Role → Roles
set_roles s guild rls = set_many role_key s guild rls

unfoldable pub remove_role : Roles → ℕ → ℕ → Roles
remove_role s guild i = remove_one s guild i

unfoldable pub remove_roles : Roles → ℕ → Roles
remove_roles s guild = remove_many s guild

pub role-set_role :
    (s : Roles) (g : ℕ) (r : Role) (h i : ℕ)
    → role (set_role s g r) h i ≡ (if r.id == i then ok r else role s h i)
unfolding role set_role
role-set_role s g r h i = find-set_one role_key s g r i

pub role-remove_role :
    (s : Roles) (g i h j : ℕ)
    → role (remove_role s g i) h j ≡ (if i == j then err err_not_found else role s h j)
unfolding role remove_role
role-remove_role s g i h j = find-remove_one s g i j

-- The store in memory keeps the promises of the interface.
abbrev pub memory_roles : RoleStore
memory_roles = record {
  State = Roles;
  role = role;
  set_role = set_role;
  remove_role = remove_role;
  role-set_role = role-set_role;
  role-remove_role = role-remove_role;
}

-- The field `guilds`.
unfoldable pub guild : GoMap ℕ Guild → ℕ → Result Guild
guild s i = elim (GoMap.get s i) [ none ↦ err err_not_found | some g ↦ ok g ]

unfoldable pub guild_set : GoMap ℕ Guild → Guild → GoMap ℕ Guild
guild_set s g = GoMap.put s g.id g

unfoldable pub guild_remove : GoMap ℕ Guild → ℕ → GoMap ℕ Guild
guild_remove s i = GoMap.del s i
