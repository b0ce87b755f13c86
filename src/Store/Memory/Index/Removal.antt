-- ===== src/Store/Memory/Index/Removal.antt =====
-- Removing one item (store/memory/channel.go and role.go), and what is listed then.
use catalogger.Store.Memory.Index.{prepend}
use mathlib.Core.List.{append_assoc}
use catalogger.Base.{nat_eq}
use catalogger.Base.GoMap
use catalogger.Base.GoMap.{get-put, get-del}
use catalogger.Store.Slice.{remove, remove_middle}
use catalogger.Store.Memory.Index.{ids, collect, list, remove_one, set_one, Index}
use catalogger.Store.Memory.Index.Laws.{collect-append}
use catalogger.Base.{
  if◌then◌else◌, All, ◌==◌, contains, Error, ok, err, ℕ, ◌≡◌, refl, ap, ◌∙◌, subst, Bool, false,
  Option, none, some, List, [], ◌∷◌, ◌++◌, arith,
}

module _ {A : Type 0} (key : A → ℕ) where
  -- every item stands under its own identifier
  abbrev pub Keyed : GoMap.GoMap ℕ A → Type 0
  Keyed items = (i : ℕ) (a : A) → GoMap.get items i ≡ some a → key a ≡ i

  pub set_one-Keyed :
      (s : Index A) (g : ℕ) (x : A) → Keyed s.items → Keyed (set_one key s g x).items
  unfolding set_one
  set_one-Keyed s g x k i a h = ground (arith, get-put s.items (key x) x i, k i a)

  pub remove_one-Keyed : (s : Index A) (g j : ℕ) → Keyed s.items → Keyed (remove_one s g j).items
  unfolding remove_one
  remove_one-Keyed s g j k i a h = ground (arith, get-del s.items j i, k i a)

  All-prepend :
      (i : ℕ) (o : Option A) (rest : List A)
      → ((a : A) → o ≡ some a → (key a == i) ≡ false)
      → All (λ a. (key a == i) ≡ false) rest
      → All (λ a. (key a == i) ≡ false) (prepend o rest)
  All-prepend i none rest new old = old
  All-prepend i (some a) rest new old = (new a refl, old)

  get-del_ne :
      (items : GoMap.GoMap ℕ A) (i j : ℕ) (a : A)
      → Keyed items
      → GoMap.get (GoMap.del items i) j ≡ some a
      → (key a == i) ≡ false
  get-del_ne items i j a k h = ground (arith, get-del items i j, k j a)

  collect-del :
      (items : GoMap.GoMap ℕ A) (i : ℕ) (js : List ℕ)
      → Keyed items
      → All (λ a. (key a == i) ≡ false) (collect (GoMap.del items i) js)
  unfolding collect
  collect-del items i [] k = tt
  collect-del items i (j ∷ js) k =
      All-prepend i (GoMap.get (GoMap.del items i) j) (collect (GoMap.del items i) js)
        (λ a. get-del_ne items i j a k) (collect-del items i js k)

  ok_of_if :
      (b : Bool) (e : Error) (xs ys : List A) → (if b then err e else ok xs) ≡ ok ys → xs ≡ ys
  ok_of_if b e xs ys h = ground arith

  -- What is removed is not listed for any guild.
  pub list-remove_one :
      (s : Index A) (g i h : ℕ) (ys : List A)
      → Keyed s.items
      → list (remove_one s g i) h ≡ ok ys
      → All (λ a. (key a == i) ≡ false) ys
  unfolding list remove_one
  list-remove_one s g i h ys k e =
      subst (All (λ a. (key a == i) ≡ false)) (ok_of_if _ _ _ ys e)
        (collect-del s.items i (ids (remove_one s g i) h) k)

module _ {A : Type 0} where
  get-remove_one_ne :
      (s : Index A) (g i j : ℕ)
      → (i == j) ≡ false
      → GoMap.get (remove_one s g i).items j ≡ GoMap.get s.items j
  unfolding remove_one
  get-remove_one_ne s g i j h = ground (arith, get-del s.items i j)

  ids-remove_one :
      (s : Index A) (g i : ℕ) (is : List ℕ)
      → GoMap.get s.guild_items g ≡ some is
      → ids (remove_one s g i) g ≡ (remove is i).1
  unfolding remove_one
  ids-remove_one s g i is h = ground (arith, get-put s.guild_items g (remove is i).1 g)

  collect_one :
      (items : GoMap.GoMap ℕ A) (z : ℕ) (a : A)
      → GoMap.get items z ≡ some a
      → collect items (z ∷ []) ≡ a ∷ []
  unfolding collect
  collect_one items z a h = rw h

  collect_last :
      (items : GoMap.GoMap ℕ A) (is js : List ℕ) (z : ℕ) (a : A)
      → GoMap.get items z ≡ some a
      → collect items (is ++ ((js ++ z ∷ []) ++ z ∷ []))
        ≡ (collect items is ++ collect items js) ++ a ∷ a ∷ []
  collect_last items is js z a h = simp (collect-append, append_assoc, collect_one items z a h)

  list_of_ids :
      (s : Index A) (g i : ℕ) (is : List ℕ)
      → ids s g ≡ i ∷ is
      → list s g ≡ ok (collect s.items (i ∷ is))
  unfolding list
  list_of_ids s g i is h = rw h (ground arith)

  -- The slice that `remove` returns is dropped, so where the removed item is not first and not last
  -- in its guild's slice, the last item of the guild is listed twice afterwards.
  pub list-remove_one_twice :
      (s : Index A) (g i p z : ℕ) (pre mid : List ℕ) (a : A)
      → GoMap.get s.guild_items g ≡ some (p ∷ pre ++ i ∷ (mid ++ z ∷ []))
      → contains (p ∷ pre) i ≡ false
      → (i == z) ≡ false
      → GoMap.get s.items z ≡ some a
      → (ys : List A) × (list (remove_one s g i) g ≡ ok (ys ++ a ∷ a ∷ []))
  list-remove_one_twice s g i p z pre mid a slice first other found =
      let items = (remove_one s g i).items in
      let left = ids-remove_one s g i _ slice ∙ remove_middle p pre mid i z first in
      (
        collect items (p ∷ pre) ++ collect items mid,
        list_of_ids (remove_one s g i) g p _ left
            ∙ ap ok
                (collect_last items (p ∷ pre) mid z a (get-remove_one_ne s g i z other ∙ found)),
      )
