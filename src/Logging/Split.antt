-- ===== src/Logging/Split.antt =====
-- logging/messages/message_update.go: a long content split over several fields of an embed. Go's
-- slices of a string count bytes; Discord's limit of 1024 on a field's value counts characters.
use catalogger.Base.{
  nat_eq, ltb, leb, if◌then◌else◌, length, take, drop, bytes, ℕ, String, false, List, [], ◌∷◌, ◌++◌,
}
use catalogger.Discord.{EmbedField}
use catalogger.Db.Crypt.{Text}
pub mod Bounds
mod Tests

-- "…" in UTF-8
abbrev pub ellipsis : Text
ellipsis = 226 ∷ 128 ∷ 166 ∷ []

abbrev pub field : String → Text → EmbedField
field name value = record { name = bytes name; value = value; inline = false }

abbrev pub clip_old : Text → Text
clip_old val = if ltb 500 (length val) then take 500 val ++ ellipsis else val

-- `old.Content[from:from+1000]` between marks
abbrev pub slice : ℕ → Text → Text
slice from content = take 1000 (drop from content)

abbrev pub old_third : Text → List EmbedField
old_third content =
    if ltb 3000 (length content)
    then field "Old content (cont.)" (ellipsis ++ slice 1000 content ++ ellipsis)
      ∷ field "Old content (cont.)" (ellipsis ++ slice 2000 content)
      ∷ field "Old content (cont.)" (ellipsis ++ clip_old (drop 3000 content))
      ∷ []
    else field "Old content (cont.)" (ellipsis ++ slice 1000 content ++ ellipsis)
      ∷ field "Old content (cont.)" (ellipsis ++ drop 2000 content)
      ∷ []

abbrev pub old_rest : Text → List EmbedField
old_rest content =
    if ltb 2000 (length content)
    then old_third content
    else field "Old content (cont.)" (ellipsis ++ drop 1000 content) ∷ []

unfoldable pub old_fields : Text → List EmbedField
old_fields content =
    if ltb 1000 (length content)
    then field "Old content" (take 1000 content ++ ellipsis) ∷ old_rest content
    else field "Old content" content ∷ []

abbrev pub clip_new : Text → Text
clip_new val = if leb 1024 (length val) then take 1015 val ++ ellipsis else val

abbrev pub new_rest : Text → List EmbedField
new_rest content =
    if ltb 2000 (length content)
    then field "New content (cont.)" (ellipsis ++ clip_new (drop 1000 content)) ∷ []
    else field "New content (cont.)" (ellipsis ++ drop 1000 content) ∷ []

unfoldable pub new_fields : Text → List EmbedField
new_fields content =
    if ltb 1000 (length content)
    then field "New content" (take 1000 content ++ ellipsis) ∷ new_rest content
    else field "New content" content ∷ []
