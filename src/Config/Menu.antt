-- ===== src/Config/Menu.antt =====
-- The tables of the menu (commands/config/channels.go), one against the other and the JSON keys.
use Prim.Native.String.{◌++◌ as str_append}
use catalogger.Base.{
  string_eq, if◌then◌else◌, length, All, ◌==◌, ◌≤◌, String, ◌≡◌, refl, ◌⊎◌, inl, inr, Bool, true,
  false, ◌&&◌, ◌||◌, some, List, [], ◌∷◌, arith,
}
use catalogger.Db.Channels.{json_key, Field}
use catalogger.Config.{channel_buttons, embed_fields, page_of_button}

abbrev pub button_of : Field → String
button_of f = str_append "channel:" (json_key f)

abbrev pub find_label : Field → List (String × Field) → String
find_label f [] = ""
find_label f ((l, g) ∷ fs) = if json_key g == json_key f then l else find_label f fs

-- the label that the menu's embed gives a field
abbrev pub label : Field → String
label f = find_label f embed_fields

abbrev pub has_button : String → String → List (String × String) → Bool
has_button l id [] = false
has_button l id ((m, j) ∷ bs) = (m == l && j == id) || has_button l id bs

abbrev pub menu_has : String → String → List (List (String × String)) → Bool
menu_has l id [] = false
menu_has l id (r ∷ rs) = has_button l id r || menu_has l id rs

-- Every log channel has a button, with the label of its line in the menu, and that button opens the
-- page that changes this channel, under the same label.
pub menu_complete :
    (f : Field)
    → (menu_has (label f) (button_of f) channel_buttons ≡ true)
      × (page_of_button (button_of f) ≡ some (label f, f))
unfolding page_of_button
menu_complete Field.guild_update = (refl, refl)
menu_complete _ = (refl, refl)

-- What a button of the menu leads to.
abbrev pub Opens : String × String → Type 0
Opens (l, id) = (id ≡ "channel:close") ⊎ ((f : Field) × (page_of_button id ≡ some (l, f)))

-- No row has more than the five buttons that Discord shows.
abbrev pub FitsRow : List (String × String) → Type 0
FitsRow row = length row ≤ 5

-- Every button of the menu is the one that closes it, or opens a page under the button's own label;
-- there are at most five rows of at most five buttons.
pub menu_sound :
    All (All Opens) channel_buttons × All FitsRow channel_buttons × (length channel_buttons ≤ 5)
unfolding page_of_button
menu_sound = (
  (
    (
      inr (Field.guild_update, refl),
      (
        inr (Field.guild_emojis_update, refl),
        (
          inr (Field.guild_role_create, refl),
          (inr (Field.guild_role_update, refl), (inr (Field.guild_role_delete, refl), tt)),
        ),
      ),
    ),
    (
      (
        inr (Field.channel_create, refl),
        (
          inr (Field.channel_update, refl),
          (
            inr (Field.channel_delete, refl),
            (inr (Field.guild_member_add, refl), (inr (Field.guild_member_remove, refl), tt)),
          ),
        ),
      ),
      (
        (
          inr (Field.guild_member_update, refl),
          (
            inr (Field.guild_key_role_update, refl),
            (
              inr (Field.guild_member_nick_update, refl),
              (
                inr (Field.guild_member_avatar_update, refl),
                (inr (Field.guild_member_kick, refl), tt),
              ),
            ),
          ),
        ),
        (
          (
            inr (Field.guild_ban_add, refl),
            (
              inr (Field.guild_ban_remove, refl),
              (
                inr (Field.invite_create, refl),
                (inr (Field.invite_delete, refl), (inr (Field.message_update, refl), tt)),
              ),
            ),
          ),
          (
            (
              inr (Field.message_delete, refl),
              (inr (Field.message_delete_bulk, refl), (inl refl, tt)),
            ),
            tt,
          ),
        ),
      ),
    ),
  ),
  omega arith,
  omega arith,
)
