-- ===== src/Logging/Roles.antt =====
-- logging/roles: the handlers of created, updated and deleted roles, over any role store. The texts
-- that libraries write and the time are arguments.
use catalogger.Base.{
  text_eq_instance, nat_eq, string_eq, if◌then◌else◌, ◌==◌, Result, ok, err, bytes, ℕ, ◌+◌, ◌-◌,
  String, Bool, true, false, not, ◌&&◌, ◌||◌, none, List, [], ◌∷◌, ◌++◌,
}
use catalogger.Common.Colours.{colour_green, colour_blue, colour_red}
use catalogger.Common.Permissions.{and_bits, xor_bits, all_perms, perm_strings_for}
use catalogger.Discord.{Role, Embed, EmbedField}
use catalogger.Db.Crypt.{Text}
use catalogger.Store.Interface.{RoleStore, err_not_found}
pub mod Knowledge
mod Tests

pub record Wording : Type 0 where
  -- `bot.ShouldLog()` and the time of the event
  pub should_log : Bool
  pub now : ℕ
  pub show : ℕ → Text
  pub show_color : ℕ → Text
  pub show_bool : Bool → Text
  -- `%q`
  pub quote : Text → Text
  -- the field "Created" of a deleted role
  pub created : ℕ → Text
  -- the library's bit masks of permissions
  pub constant : String → ℕ

-- the store, and the guilds and embeds of the calls of `bot.Send`, the last first
pub record RoleLogs (S : RoleStore) : Type 0 where
  pub store : S.State
  pub sent : List (ℕ × Embed)

pub data RoleEvent : Type 0 where
  created updated : ℕ → Role → RoleEvent
  deleted : ℕ → ℕ → RoleEvent

abbrev pub role_field : String → Text → EmbedField
role_field name value = record { name = bytes name; value = value; inline = false }

-- `strings.Join(names, ", ")`
abbrev pub join : List String → Text
join [] = []
join (s ∷ ss) = elim ss [ [] ↦ bytes s | _ ∷ _ ↦ bytes s ++ bytes ", " ++ join ss ]

module _ (w : Wording) where
  abbrev pub perm_line : String → ℕ → Text
  perm_line sign p =
      if p == 0 then [] else bytes sign ++ join (perm_strings_for (all_perms w.constant) p)

  abbrev pub spacer : ℕ → ℕ → Text
  spacer added removed = if added == 0 || removed == 0 then [] else bytes "\n\n"

  -- the value of the field "Permissions"
  unfoldable pub permission_text : ℕ → ℕ → Text
  permission_text new old =
      let changed = xor_bits 64 new old in
      let added = and_bits 64 new changed in
      let removed = and_bits 64 old changed in
      bytes "```diff\n"
      ++ perm_line "+ " added
      ++ spacer added removed
      ++ perm_line "- " removed
      ++ bytes "\n```"

  abbrev pub role_embed : ℕ → Text → Text → List EmbedField → ℕ → Embed
  role_embed color title description fields id = record {
    title = title;
    description = description;
    color = color;
    author = none;
    fields = fields;
    footer = bytes "ID: " ++ w.show id;
    timestamp = w.now;
  }

  abbrev pub create_embed : Role → Embed
  create_embed r =
      role_embed colour_green (bytes "Role created")
        (bytes "**Name:** "
          ++ r.name
          ++ bytes "\n**Colour:** #"
          ++ w.show_color r.color
          ++ bytes "\n**Mentionable:** "
          ++ w.show_bool r.mentionable
          ++ bytes "\n**Shown separately:** "
          ++ w.show_bool r.hoist)
        [] r.id

  abbrev pub same_bool : Bool → Bool → Bool
  same_bool true b = b
  same_bool false b = not b

  -- `append(e.Fields, …)` under each of the four tests of `roleUpdate`, in their order
  abbrev pub name_fields : Role → Role → List EmbedField
  name_fields new old =
      if new.name == old.name
      then []
      else role_field "Name" (bytes "**Before:** " ++ old.name ++ bytes "\n**After:** " ++ new.name)
        ∷ []

  abbrev pub flag_fields : Role → Role → List EmbedField
  flag_fields new old =
      if same_bool new.hoist old.hoist && same_bool new.mentionable old.mentionable
      then []
      else record {
        name = 226 ∷ 128 ∷ 139 ∷ [];
        value =
            bytes "**Mentionable:** "
            ++ w.show_bool new.mentionable
            ++ bytes "\n**Shown separately:** "
            ++ w.show_bool new.hoist;
        inline = false;
      }
        ∷ []

  abbrev pub color_fields : Role → Role → List EmbedField
  color_fields new old =
      if new.color == old.color
      then []
      else role_field "Colour" (
          bytes "**Before:** "
          ++ w.show_color old.color
          ++ bytes "\n**After:** "
          ++ w.show_color new.color)
        ∷ []

  abbrev pub permission_fields : Role → Role → List EmbedField
  permission_fields new old =
      if new.permissions == old.permissions
      then []
      else role_field "Permissions" (permission_text new.permissions old.permissions) ∷ []

  unfoldable pub update_fields : Role → Role → List EmbedField
  update_fields new old =
      name_fields new old
      ++ flag_fields new old
      ++ color_fields new old
      ++ permission_fields new old

  -- `roleChanged` is true from the first field that is appended on
  abbrev pub role_changed : List EmbedField → Bool
  role_changed [] = false
  role_changed (f ∷ fs) = true

  abbrev pub update_embed : Role → List EmbedField → Embed
  update_embed r fields =
      role_embed colour_blue (bytes "Role \"" ++ r.name ++ bytes "\" updated") [] fields r.id

  abbrev pub delete_role_embed : Role → ℕ → Embed
  delete_role_embed old id =
      role_embed colour_red (bytes "Role " ++ w.quote old.name ++ bytes " deleted") []
        (role_field "Created" (w.created old.id)
          ∷ role_field "Colour" (w.show_color old.color)
          ∷ [])
        id

module _ (S : RoleStore) (w : Wording) where
  unfoldable pub role_create : ℕ → Role → RoleLogs S → RoleLogs S
  role_create guild r st = record {
    store = S.set_role st.store guild r;
    sent = if w.should_log then (guild, create_embed w r) ∷ st.sent else st.sent;
  }

  abbrev pub send_update : ℕ → Role → List EmbedField → List (ℕ × Embed) → List (ℕ × Embed)
  send_update guild r fields sent =
      if w.should_log && role_changed w fields
      then (guild, update_embed w r fields) ∷ sent
      else sent

  -- A role that the store does not know is an error: nothing is stored then.
  abbrev pub update_known : ℕ → Role → Result Role → RoleLogs S → RoleLogs S
  update_known guild r (err e) st = st
  update_known guild r (ok old) st = record {
    store = S.set_role st.store guild r;
    sent = send_update guild r (update_fields w r old) st.sent;
  }

  unfoldable pub role_update : ℕ → Role → RoleLogs S → RoleLogs S
  role_update guild r st = update_known guild r (S.role st.store guild r.id) st

  abbrev pub delete_known : ℕ → ℕ → Result Role → RoleLogs S → RoleLogs S
  delete_known guild id (err e) st = st
  delete_known guild id (ok old) st = record {
    store = S.remove_role st.store guild id;
    sent = if w.should_log then (guild, delete_role_embed w old id) ∷ st.sent else st.sent;
  }

  unfoldable pub role_delete : ℕ → ℕ → RoleLogs S → RoleLogs S
  role_delete guild id st = delete_known guild id (S.role st.store guild id) st

  unfoldable pub handle : RoleEvent → RoleLogs S → RoleLogs S
  handle (RoleEvent.created g r) st = role_create g r st
  handle (RoleEvent.updated g r) st = role_update g r st
  handle (RoleEvent.deleted g id) st = role_delete g id st

  unfoldable pub handle_all : List RoleEvent → RoleLogs S → RoleLogs S
  handle_all [] st = st
  handle_all (v ∷ vs) st = handle_all vs (handle v st)
