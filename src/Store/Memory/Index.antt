-- ===== src/Store/Memory/Index.antt =====
-- The scheme that channel.go and role.go share: a map of items by identifier, and for each guild the
-- slice of its items' identifiers. Only the maps hold these slices, so no other slice shares their
-- arrays.
use catalogger.Base.{nat_eq}
pub mod Laws
pub mod Removal
use catalogger.Base.GoMap
use catalogger.Base.GoMap.{GoMap}
use catalogger.Store.Interface.{err_not_found}
use catalogger.Store.Slice.{remove}
use catalogger.Base.{
  if◌then◌else◌, length, ◌==◌, contains, Result, ok, err, ℕ, Option, none, some, List, [], ◌∷◌,
  ◌++◌,
}

pub record Index (A : Type 0) : Type 0 where
  pub items : GoMap ℕ A
  pub guild_items : GoMap ℕ (List ℕ)

-- A missing key reads as the nil slice.
abbrev pub or_nil : Option (List ℕ) → List ℕ
or_nil none = []
or_nil (some ids) = ids

module _ {A : Type 0} where
  abbrev pub empty : Index A
  empty = record { items = []; guild_items = [] }

  abbrev pub ids : Index A → ℕ → List ℕ
  ids s g = or_nil (GoMap.get s.guild_items g)

  -- `if ok { chs = append(chs, *ch) }`
  abbrev pub prepend : Option A → List A → List A
  prepend none rest = rest
  prepend (some a) rest = a ∷ rest

  -- the loop of `Channels` and `Roles`
  unfoldable pub collect : GoMap ℕ A → List ℕ → List A
  collect items [] = []
  collect items (i ∷ is) = prepend (GoMap.get items i) (collect items is)

  unfoldable pub list : Index A → ℕ → Result (List A)
  unfolding collect
  list s g = if length (ids s g) == 0 then err err_not_found else ok (collect s.items (ids s g))

  unfoldable pub find : Index A → ℕ → Result A
  find s i = elim (GoMap.get s.items i) [ none ↦ err err_not_found | some a ↦ ok a ]

  -- the loop of `RemoveChannels` and `RemoveRoles`
  pub del_all : GoMap ℕ A → List ℕ → GoMap ℕ A
  del_all items [] = items
  del_all items (i ∷ is) = del_all (GoMap.del items i) is

  -- `remove` is called for its effect on the array; the slice that it returns is dropped.
  unfoldable pub remove_one : Index A → ℕ → ℕ → Index A
  remove_one s g i = record {
    items = GoMap.del s.items i;
    guild_items = elim (GoMap.get s.guild_items g) [
      | none ↦ s.guild_items
      | some slice ↦ GoMap.put s.guild_items g (remove slice i).1
    ];
  }

  unfoldable pub remove_many : Index A → ℕ → Index A
  unfolding del_all
  remove_many s g = record {
    items = del_all s.items (ids s g);
    guild_items = GoMap.del s.guild_items g;
  }

module _ {A : Type 0} (key : A → ℕ) where
  unfoldable pub set_one : Index A → ℕ → A → Index A
  set_one s g a = record {
    items = GoMap.put s.items (key a) a;
    guild_items =
        if contains (ids s g) (key a)
        then s.guild_items
        else GoMap.put s.guild_items g (ids s g ++ key a ∷ []);
  }

  -- The loop of `SetChannels` and `SetRoles` repeats the body of the single setter.
  unfoldable pub set_many : Index A → ℕ → List A → Index A
  set_many s g [] = s
  set_many s g (a ∷ as') = set_many (set_one s g a) g as'
