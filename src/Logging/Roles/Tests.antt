-- ===== src/Logging/Roles/Tests.antt =====
-- The role handlers over the store in memory.
use catalogger.Base.{nat_eq, string_eq, bytes, String, ◌≡◌, true, false, List, [], ◌∷◌}
use catalogger.Discord.{Role}
use catalogger.Store.Memory.Roles.{memory_roles}
use catalogger.Store.Memory.Index.{empty}
use catalogger.Logging.Roles.{handle_all, Wording, RoleLogs, RoleEvent}
use catalogger.Logging.Roles.Knowledge.{learn_all, handle_all-learn_all}

abbrev wording : Wording
wording = record {
  should_log = true;
  now = 1;
  show = λ i. i ∷ [];
  show_color = λ c. c ∷ [];
  show_bool = λ b. [];
  quote = λ s. s;
  created = λ i. i ∷ [];
  constant = λ name. 1;
}

abbrev role : String → Role
role name = record {
  id = 4;
  name = bytes name;
  color = 0;
  hoist = false;
  mentionable = false;
  permissions = 0;
}

abbrev none_known : RoleLogs memory_roles
none_known = record { store = empty; sent = [] }

abbrev events : List RoleEvent
events = RoleEvent.created 1 (role "mod") ∷ RoleEvent.updated 1 (role "moderator") ∷ []

handle_all-learn_all_example :
    memory_roles.role (handle_all memory_roles wording events none_known).store
    ≡ learn_all events (memory_roles.role empty)
handle_all-learn_all_example = handle_all-learn_all memory_roles wording events none_known

abbrev one_known : RoleLogs memory_roles
one_known = record { store = memory_roles.set_role empty 1 (role "mod"); sent = [] }
