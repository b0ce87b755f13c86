-- ===== src/Logging/Roles/Knowledge.antt =====
-- What the role store knows after any events, and which updates are logged (logging/roles).
use catalogger.Base.{
  text_eq_instance, nat_eq, string_eq, if◌then◌else◌, ◌==◌, Result, ok, err, ℕ, ◌≡◌, refl, ap, ◌∙◌,
  Bool, true, false, not, ◌&&◌, List, [], ◌∷◌, ◌++◌,
}
use catalogger.Logging.Roles.{
  update_fields, update_embed, same_bool, role_changed, handle_all, role_create, update_known,
  role_update, delete_known, role_delete, handle, Wording, RoleLogs, RoleEvent,
}
use catalogger.Discord.{Role, EmbedField}
use catalogger.Store.Interface.{RoleStore, err_not_found}

-- the roles that are known, as a function
abbrev pub Known : Type 0
Known = ℕ → ℕ → Result Role

-- An event of a role that must be known already changes nothing if it is not.
abbrev pub if_known : Result Role → Known → Known → Known
if_known (err e) before after = before
if_known (ok r) before after = after

-- an independent description of an event
abbrev pub learn : RoleEvent → Known → Known
learn (RoleEvent.created g r) known = λ h id. if r.id == id then ok r else known h id
learn (RoleEvent.updated g r) known =
    if_known (known g r.id) known (λ h id. if r.id == id then ok r else known h id)
learn (RoleEvent.deleted g i) known =
    if_known (known g i) known (λ h id. if i == id then err err_not_found else known h id)

abbrev pub learn_all : List RoleEvent → Known → Known
learn_all [] known = known
learn_all (v ∷ vs) known = learn_all vs (learn v known)

module _ (S : RoleStore) (w : Wording) where
  by_update :
      (g : ℕ) (r : Role) (o : Result Role) (st : RoleLogs S) (h id : ℕ)
      → S.role (update_known S w g r o st).store h id
        ≡ if_known o
            (S.role st.store)
            (λ h' id'. if r.id == id' then ok r else S.role st.store h' id')
            h
            id
  by_update g r (err e) st h id = refl
  by_update g r (ok old) st h id = S.role-set_role st.store g r h id

  by_delete :
      (g i : ℕ) (o : Result Role) (st : RoleLogs S) (h id : ℕ)
      → S.role (delete_known S w g i o st).store h id
        ≡ if_known o
            (S.role st.store)
            (λ h' id'. if i == id' then err err_not_found else S.role st.store h' id')
            h
            id
  by_delete g i (err e) st h id = refl
  by_delete g i (ok old) st h id = S.role-remove_role st.store g i h id

  handle-learn :
      (v : RoleEvent) (st : RoleLogs S) (h id : ℕ)
      → S.role (handle S w v st).store h id ≡ learn v (S.role st.store) h id
  unfolding handle role_create role_update role_delete
  handle-learn (RoleEvent.created g r) st h id = S.role-set_role st.store g r h id
  handle-learn (RoleEvent.updated g r) st h id = by_update g r (S.role st.store g r.id) st h id
  handle-learn (RoleEvent.deleted g i) st h id = by_delete g i (S.role st.store g i) st h id

  handle-learn_path :
      (v : RoleEvent) (st : RoleLogs S) → S.role (handle S w v st).store ≡ learn v (S.role st.store)
  handle-learn_path v st i h id = handle-learn v st h id i

  -- After any sequence of created, updated and deleted roles, logged or not, a lookup in the store
  -- answers what the description of the events as functions says, beginning with what the store
  -- answered before: a created role is known, a deleted one is not, a known one that is updated is
  -- known anew, and an update or a deletion of an unknown one changes nothing.
  pub handle_all-learn_all :
      (vs : List RoleEvent) (st : RoleLogs S)
      → S.role (handle_all S w vs st).store ≡ learn_all vs (S.role st.store)
  unfolding handle_all
  handle_all-learn_all [] st = refl
  handle_all-learn_all (v ∷ vs) st =
      handle_all-learn_all vs (handle S w v st) ∙ ap (learn_all vs) (handle-learn_path v st)

module _ (w : Wording) where
  changed-if :
      (a b c d : Bool) (f g h k : EmbedField)
      → role_changed w (
          (if a then [] else f ∷ [])
          ++ (if b then [] else g ∷ [])
          ++ (if c then [] else h ∷ [])
          ++ (if d then [] else k ∷ []))
        ≡ not (a && b && c && d)
  changed-if false b c d f g h k = refl
  changed-if true false c d f g h k = refl
  changed-if true true false d f g h k = refl
  changed-if true true true false f g h k = refl
  changed-if true true true true f g h k = refl

  -- the two versions agree in all that is logged
  abbrev pub alike : Role → Role → Bool
  alike new old =
      new.name == old.name
      && (same_bool w new.hoist old.hoist && same_bool w new.mentionable old.mentionable)
      && new.color == old.color
      && new.permissions == old.permissions

  changed-alike : (new old : Role) → role_changed w (update_fields w new old) ≡ not (alike new old)
  unfolding update_fields
  changed-alike new old =
      changed-if (new.name == old.name)
        (same_bool w new.hoist old.hoist && same_bool w new.mentionable old.mentionable)
        (new.color == old.color) (new.permissions == old.permissions) _ _ _ _

-- An updated role that the store knows is stored, and it is logged exactly if logging is on and the
-- new version differs from the known one in its name, flags, colour or permissions.
pub role_update-alike :
    (S : RoleStore) (w : Wording) (g : ℕ) (new old : Role) (st : RoleLogs S)
    → S.role st.store g new.id ≡ ok old
    → ((role_update S w g new st).store ≡ S.set_role st.store g new)
      × ((role_update S w g new st).sent ≡ (
          if w.should_log && not (alike w new old)
          then (g, update_embed w new (update_fields w new old)) ∷ st.sent
          else st.sent))
unfolding role_update
role_update-alike S w g new old st known = rw (known, ← changed-alike w new old) (refl, refl)
