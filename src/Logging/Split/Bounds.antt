-- ===== src/Logging/Split/Bounds.antt =====
-- The fields of a long content and Discord's limits (logging/messages/message_update.go).
use catalogger.Logging.Split.{
  new_fields, old_rest, old_fields, new_rest, slice, old_third, clip_old, clip_new, ellipsis,
}
use catalogger.Base.{
  nat_eq, ltb, leb, if◌then◌else◌, ltb→lt, length, take, drop, All, length-take, ℕ, zero, suc, ◌+◌,
  ◌-◌, ◌≤◌, ◌<◌, ◌≡◌, refl, Bool, true, false, ◌||◌, List, [], ◌∷◌, ◌++◌, arith,
}
use catalogger.Discord.{EmbedField}
use catalogger.Db.Crypt.{Text}

-- a byte that begins a character of UTF-8, which continuation bytes (128 to 191) do not
abbrev pub begins : ℕ → Bool
begins b = ltb b 128 || leb 192 b

-- `utf8.RuneCountInString`, for valid UTF-8
abbrev pub runes : Text → ℕ
runes [] = 0
runes (b ∷ bs) = if begins b then suc (runes bs) else runes bs

runes-length : (t : Text) → runes t ≤ length t
runes-length [] = omega arith
runes-length (b ∷ bs) = ground (arith, runes-length bs)

runes-append : (s t : Text) → runes (s ++ t) ≡ runes s + runes t
runes-append [] t = omega arith
runes-append (b ∷ bs) t = ground (arith, runes-append bs t)

length-drop : (n : ℕ) (t : Text) → length (drop n t) ≡ length t - n
length-drop zero t = omega arith
length-drop (suc n) [] = omega arith
length-drop (suc n) (b ∷ bs) = omega (arith, length-drop n bs)

-- a value of so many characters, at most
abbrev pub IsShort : ℕ → EmbedField → Type 0
IsShort limit f = runes f.value ≤ limit

runes-take : (n : ℕ) (t : Text) → runes (take n t) ≤ n
runes-take n t = omega (arith, runes-length (take n t), length-take n t)

runes-drop : (n : ℕ) (t : Text) → runes (drop n t) ≤ length t - n
runes-drop n t = omega (arith, runes-length (drop n t), length-drop n t)

marked_before : (t : Text) → runes (ellipsis ++ t) ≡ 1 + runes t
marked_before t = runes-append ellipsis t

marked_after : (t : Text) → runes (t ++ ellipsis) ≡ runes t + 1
marked_after t = runes-append t ellipsis

clip-runes :
    (n : ℕ) (t : Text) → runes (if ltb n (length t) then take n t ++ ellipsis else t) ≤ n + 1
clip-runes n t =
    ground (arith, runes-take n t, marked_after (take n t), runes-length t, ltb→lt n (length t))

clip_new-runes :
    (n k : ℕ) (t : Text)
    → k < n
    → runes (if leb (suc n) (length t) then take k t ++ ellipsis else t) ≤ n
clip_new-runes n k t h = ground (arith, runes-take k t, marked_after (take k t), runes-length t)

both_marks : (from : ℕ) (t : Text) → runes (ellipsis ++ slice from t ++ ellipsis) ≤ 1002
both_marks from t = omega (
  arith,
  marked_before (slice from t ++ ellipsis),
  marked_after (slice from t),
  runes-take 1000 (drop from t),
)

one_mark : (from : ℕ) (t : Text) → runes (ellipsis ++ slice from t) ≤ 1001
one_mark from t = omega (arith, marked_before (slice from t), runes-take 1000 (drop from t))

tail_mark : (from : ℕ) (t : Text) → length t ≤ from + 1000 → runes (ellipsis ++ drop from t) ≤ 1001
tail_mark from t h = omega (arith, marked_before (drop from t), runes-drop from t)

-- the characters of the fields' values together
abbrev pub total : List EmbedField → ℕ
total [] = 0
total (f ∷ fs) = runes f.value + total fs

-- values within a limit each, and together
pub record Fits (limit sum : ℕ) (fs : List EmbedField) : Type 0 where
  pub each : All (IsShort limit) fs
  pub together : total fs ≤ sum

cons-Fits :
    (limit a sum : ℕ) (f : EmbedField) (fs : List EmbedField)
    → runes f.value ≤ a
    → a ≤ limit
    → Fits limit sum fs
    → Fits limit (a + sum) (f ∷ fs)
cons-Fits limit a sum f fs h k r = record {
  each = (omega (arith, h, k), r.each);
  together = omega (arith, h, r.together);
}

weaken : (limit a b : ℕ) (fs : List EmbedField) → Fits limit a fs → a ≤ b → Fits limit b fs
weaken limit a b fs r h = record { each = r.each; together = omega (arith, h, r.together) }

one-Fits : (limit a : ℕ) (f : EmbedField) → runes f.value ≤ a → a ≤ limit → Fits limit a (f ∷ [])
one-Fits limit a f h k = record { each = (omega (arith, h, k), tt); together = omega (arith, h) }

-- the fields of either branch
branch-Fits :
    (limit sum : ℕ) (b : Bool) (x y : List EmbedField)
    → (b ≡ true → Fits limit sum x)
    → (b ≡ false → Fits limit sum y)
    → Fits limit sum (if b then x else y)
branch-Fits limit sum true x y f g = f refl
branch-Fits limit sum false x y f g = g refl

not_above : (n : ℕ) (t : Text) → ltb n (length t) ≡ false → length t ≤ n
not_above n t h = ground arith

clipped_mark : (t : Text) → runes (ellipsis ++ clip_old t) ≤ 502
clipped_mark t = omega (arith, marked_before (clip_old t), clip-runes 500 t)

old_third-Fits : (c : Text) → Fits 1024 2505 (old_third c)
old_third-Fits c =
    branch-Fits 1024 2505 (ltb 3000 (length c)) _ _
      (λ h. cons-Fits 1024 1002 1503 _ _ (both_marks 1000 c) (omega arith) (
        cons-Fits 1024 1001 502 _ _ (one_mark 2000 c) (omega arith)
          (one-Fits 1024 502 _ (clipped_mark (drop 3000 c)) (omega arith))))
      (λ h.
        weaken 1024 2003 2505 _
          (cons-Fits 1024 1002 1001 _ _ (both_marks 1000 c) (omega arith)
            (one-Fits 1024 1001 _ (tail_mark 2000 c (not_above 3000 c h)) (omega arith)))
          (omega arith))

old_rest-Fits : (c : Text) → Fits 1024 2505 (old_rest c)
old_rest-Fits c =
    branch-Fits 1024 2505 (ltb 2000 (length c)) _ _ (λ h. old_third-Fits c)
      (λ h.
        weaken 1024 1001 2505 _
          (one-Fits 1024 1001 _ (tail_mark 1000 c (not_above 2000 c h)) (omega arith))
          (omega arith))

head_mark : (t : Text) → runes (take 1000 t ++ ellipsis) ≤ 1001
head_mark t = omega (arith, marked_after (take 1000 t), runes-take 1000 t)

whole : (t : Text) → ltb 1000 (length t) ≡ false → runes t ≤ 1000
whole t h = omega (arith, not_above 1000 t h, runes-length t)

new_rest-Fits : (c : Text) → Fits 1024 1024 (new_rest c)
new_rest-Fits c =
    branch-Fits 1024 1024 (ltb 2000 (length c)) _ _
      (λ h.
        one-Fits 1024 1024 _
          (omega (
            arith,
            marked_before (clip_new (drop 1000 c)),
            clip_new-runes 1023 1015 (drop 1000 c) (omega arith),
          ))
          (omega arith))
      (λ h.
        weaken 1024 1001 1024 _
          (one-Fits 1024 1001 _ (tail_mark 1000 c (not_above 2000 c h)) (omega arith))
          (omega arith))

-- Whatever the lengths of the old and of the new content of an edited message, each field that shows a
-- piece of them has at most 1024 characters, Discord's limit on a field's value, and all of them
-- together have at most 5531, less than its limit of 6000 on an embed.
pub fields-Fits :
    (old new : Text)
    → (Fits 1024 3506 (old_fields old))
      × (Fits 1024 2025 (new_fields new))
      × (total (old_fields old) + total (new_fields new) ≤ 5531)
unfolding old_fields new_fields
fields-Fits old new = (old_Fits, new_Fits, omega (arith, old_Fits.together, new_Fits.together))
  where
    old_Fits : Fits 1024 3506 (old_fields old)
    old_Fits =
        branch-Fits 1024 3506 (ltb 1000 (length old)) _ _
          (λ h. cons-Fits 1024 1001 2505 _ _ (head_mark old) (omega arith) (old_rest-Fits old))
          (λ h.
            weaken 1024 1000 3506 _ (one-Fits 1024 1000 _ (whole old h) (omega arith))
              (omega arith))

    new_Fits : Fits 1024 2025 (new_fields new)
    new_Fits =
        branch-Fits 1024 2025 (ltb 1000 (length new)) _ _
          (λ h. cons-Fits 1024 1001 1024 _ _ (head_mark new) (omega arith) (new_rest-Fits new))
          (λ h.
            weaken 1024 1000 2025 _ (one-Fits 1024 1000 _ (whole new h) (omega arith))
              (omega arith))
