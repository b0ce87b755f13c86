-- ===== src/Logging/Routing/Scopes.antt =====
-- Ignores and redirects (logging/messages/message_delete.go and message_update.go) against the list
-- of the places that a message is in, from the narrowest.
use catalogger.Logging.Routing.{
  category_redirect, ignored_at, is_root_ignored, is_user_ignored, log_channel,
}
use catalogger.Base.GoMap
use catalogger.Base.{
  nat_eq, string_eq, if◌then◌else◌, Bool-cases, Option-cases, contains, ℕ, String, ◌≡◌, refl, ap,
  inl, inr, Bool, false, ◌||◌, Option, none, some, List, [], ◌∷◌, arith,
}
use catalogger.Discord.{Discord, Channel}
use catalogger.Db.Channels.{Ignores, Channels}

module _ (d : Discord) where
  -- the channel, its root and the category, if it has one
  abbrev pub scopes : ℕ → Channel → List ℕ
  scopes ch root = ch ∷ root.id ∷ (if d.is_valid root.parent_id then root.parent_id ∷ [] else [])

  -- an independent description of the ignores: a place among these is ignored for all
  abbrev pub any_ignored : Ignores → List ℕ → Bool
  any_ignored ig [] = false
  any_ignored ig (s ∷ ss) = contains ig.global_channels s || any_ignored ig ss

  -- the user is ignored in a place among these
  abbrev pub any_user_ignored : Ignores → ℕ → List ℕ → Bool
  any_user_ignored ig user [] = false
  any_user_ignored ig user (s ∷ ss) = ignored_at d ig s user || any_user_ignored ig user ss

  abbrev pub first_some : Option ℕ → ℕ → ℕ
  first_some none rest = rest
  first_some (some id) rest = id

  -- the redirect of the first place that has one
  abbrev pub first_redirect : GoMap.GoMap String ℕ → ℕ → List ℕ → ℕ
  first_redirect redirects default [] = default
  first_redirect redirects default (s ∷ ss) =
      first_some (GoMap.get redirects (d.show s)) (first_redirect redirects default ss)

-- A message goes to the redirect of the first of its channel, its root channel and its category that
-- has one, and otherwise to the event's own channel; the category counts only if the root has one.
pub log_channel-scopes :
    (d : Discord) (default : ℕ) (chs : Channels) (ch : ℕ) (root : Channel)
    → log_channel d default chs ch root ≡ first_redirect d chs.redirects default (scopes d ch root)
unfolding log_channel
log_channel-scopes d default chs ch root =
    elim (Option-cases (GoMap.get chs.redirects (d.show ch))) [
      | inr (i, h) ↦ rw (h) refl
      | inl h ↦ elim (Option-cases (GoMap.get chs.redirects (d.show root.id))) [
        | inr (i, h') ↦ rw (h, h') refl
        | inl h' ↦ rw (h, h') (by_category (GoMap.get chs.redirects (d.show root.parent_id)) refl)
      ]
    ]
  where
    by_category :
        (o : Option ℕ)
        → GoMap.get chs.redirects (d.show root.parent_id) ≡ o
        → category_redirect d default chs root (GoMap.get chs.redirects (d.show root.parent_id))
          ≡ first_redirect d chs.redirects default
              (if d.is_valid root.parent_id then root.parent_id ∷ [] else [])
    by_category o h = elim (Bool-cases (d.is_valid root.parent_id)) [
      | inl v ↦ elim (Option-cases (GoMap.get chs.redirects (d.show root.parent_id))) [
        | inl e ↦ rw (v, e) refl
        | inr (i, e) ↦ rw (v, e) (ap (λ b. if b then i else default) v)
      ]
      | inr v ↦ elim (Option-cases (GoMap.get chs.redirects (d.show root.parent_id))) [
        | inl e ↦ rw (v, e) refl
        | inr (i, e) ↦ rw (v, e) (ap (λ b. if b then i else default) v)
      ]
    ]

-- The checks together find a message ignored exactly if its channel, its root channel or its category
-- is ignored, or its author is ignored in one of these.
pub ignored-scopes :
    (d : Discord) (ig : Ignores) (ch : ℕ) (root : Channel) (user : ℕ)
    → (contains ig.global_channels ch
        || (is_root_ignored d ig root || is_user_ignored d ig ch root user))
      ≡ (any_ignored d ig (scopes d ch root) || any_user_ignored d ig user (scopes d ch root))
unfolding is_root_ignored is_user_ignored
ignored-scopes d ig ch root user = ground arith
