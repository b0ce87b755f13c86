-- ===== src/Logging/Routing.antt =====
-- The checks that logging/messages/message_delete.go and message_update.go share: whether a message
-- is to be logged, and where.
use catalogger.Base.GoMap
use catalogger.Base.{
  nat_eq, string_eq, if◌then◌else◌, contains, ℕ, Bool, ◌&&◌, ◌||◌, Option, none, some, List, [],
}
use catalogger.Discord.{Discord, Channel}
use catalogger.Db.Channels.{Ignores, Channels}
pub mod Scopes
mod Tests

-- `lc.Ignores.PerChannel[key]`, which is nil for a key that is missing
abbrev pub users_at : Option (List ℕ) → List ℕ
users_at none = []
users_at (some us) = us

module _ (d : Discord) where
  abbrev pub ignored_at : Ignores → ℕ → ℕ → Bool
  ignored_at ig id user = contains (users_at (GoMap.get ig.per_channel (d.show id))) user

  -- the root channel or its category is ignored
  unfoldable pub is_root_ignored : Ignores → Channel → Bool
  is_root_ignored ig root =
      contains ig.global_channels root.id
      || (d.is_valid root.parent_id && contains ig.global_channels root.parent_id)

  -- the user is ignored in the channel, in its root or in the category
  unfoldable pub is_user_ignored : Ignores → ℕ → Channel → ℕ → Bool
  is_user_ignored ig ch root user =
      ignored_at ig ch user
      || ignored_at ig root.id user
      || (d.is_valid root.parent_id && ignored_at ig root.parent_id user)

  abbrev pub category_redirect : ℕ → Channels → Channel → Option ℕ → ℕ
  category_redirect default chs root none = default
  category_redirect default chs root (some id) = if d.is_valid root.parent_id then id else default

  abbrev pub root_redirect : ℕ → Channels → Channel → Option ℕ → ℕ
  root_redirect default chs root (some id) = id
  root_redirect default chs root none =
      category_redirect default chs root (GoMap.get chs.redirects (d.show root.parent_id))

  abbrev pub channel_redirect : ℕ → Channels → Channel → Option ℕ → ℕ
  channel_redirect default chs root (some id) = id
  channel_redirect default chs root none =
      root_redirect default chs root (GoMap.get chs.redirects (d.show root.id))

  -- the log channel, the redirects taken into account
  unfoldable pub log_channel : ℕ → Channels → ℕ → Channel → ℕ
  log_channel default chs ch root =
      channel_redirect default chs root (GoMap.get chs.redirects (d.show ch))
