-- ===== src/Store/Memory/Index/Laws.antt =====
-- What holds of the shared scheme of channels and roles.
use mathlib.Core.List.{append-nil, append_assoc}
use catalogger.Base.{nat_eq}
use catalogger.Base.GoMap
use catalogger.Base.GoMap.{get-put, get-del}
use catalogger.Store.Interface.{err_not_found}
use catalogger.Store.Memory.Index.{
  ids, collect, list, find, del_all, remove_one, remove_many, set_one, set_many, Index,
}
use catalogger.Base.{
  if◌then◌else◌, ◌==◌, contains, contains-append, Distinct, ok, err, ℕ, ◌≡◌, refl, sym, ◌∙◌, subst,
  false, none, some, List, [], ◌∷◌, ◌++◌, map, arith,
}

module _ {A : Type 0} where
  pub find-remove_one :
      (s : Index A) (g i j : ℕ)
      → find (remove_one s g i) j ≡ (if i == j then err err_not_found else find s j)
  unfolding find remove_one
  find-remove_one s g i j = ground (arith, get-del s.items i j)

  get-del_all :
      (items : GoMap.GoMap ℕ A) (is : List ℕ) (j : ℕ)
      → GoMap.get (del_all items is) j ≡ (if contains is j then none else GoMap.get items j)
  unfolding del_all
  get-del_all items [] j = refl
  get-del_all items (i ∷ is) j =
      ground (arith, get-del_all (GoMap.del items i) is j, get-del items i j)

  -- Removing a guild removes the items of its slice, no other item, and its list.
  pub find-remove_many :
      (s : Index A) (g j : ℕ)
      → (find (remove_many s g) j ≡ (if contains (ids s g) j then err err_not_found else find s j))
        × (list (remove_many s g) g ≡ err err_not_found)
  unfolding find remove_many list
  find-remove_many s g j =
      (ground (arith, get-del_all s.items (ids s g) j), ground (arith, get-del s.guild_items g g))

  pub collect-append :
      (items : GoMap.GoMap ℕ A) (is js : List ℕ)
      → collect items (is ++ js) ≡ collect items is ++ collect items js
  unfolding collect
  collect-append items [] js = refl
  collect-append items (i ∷ is) js = ground (arith, collect-append items is js)

module _ {A : Type 0} (key : A → ℕ) where
  pub find-set_one :
      (s : Index A) (g : ℕ) (a : A) (j : ℕ)
      → find (set_one key s g a) j ≡ (if key a == j then ok a else find s j)
  unfolding find set_one
  find-set_one s g a j = ground (arith, get-put s.items (key a) a j)

  ids-set_one :
      (s : Index A) (g : ℕ) (a : A)
      → contains (ids s g) (key a) ≡ false
      → ids (set_one key s g a) g ≡ ids s g ++ key a ∷ []
  unfolding set_one
  ids-set_one s g a h = rw h (ground (arith, get-put s.guild_items g (ids s g ++ key a ∷ []) g))

  get-set_one_ne :
      (s : Index A) (g : ℕ) (a : A) (j : ℕ)
      → (key a == j) ≡ false
      → GoMap.get (set_one key s g a).items j ≡ GoMap.get s.items j
  unfolding set_one
  get-set_one_ne s g a j h = ground (arith, get-put s.items (key a) a j)

  get-set_one_self :
      (s : Index A) (g : ℕ) (a : A) → GoMap.get (set_one key s g a).items (key a) ≡ some a
  unfolding set_one
  get-set_one_self s g a = ground (arith, get-put s.items (key a) a (key a))

  get-set_many_ne :
      (s : Index A) (g : ℕ) (xs : List A) (j : ℕ)
      → contains (map key xs) j ≡ false
      → GoMap.get (set_many key s g xs).items j ≡ GoMap.get s.items j
  unfolding set_many
  get-set_many_ne s g [] j h = refl
  get-set_many_ne s g (x ∷ xs) j h =
      ground (arith, get-set_many_ne (set_one key s g x) g xs j, get-set_one_ne s g x j)

  collect-set_many :
      (s : Index A) (g : ℕ) (xs : List A)
      → Distinct (map key xs)
      → collect (set_many key s g xs).items (map key xs) ≡ xs
  unfolding set_many collect
  collect-set_many s g [] d = refl
  collect-set_many s g (x ∷ xs) d = ground (
    arith,
    collect-set_many (set_one key s g x) g xs d.1,
    get-set_many_ne (set_one key s g x) g xs (key x),
    get-set_one_self s g x,
  )

  -- a new element does not meet the list that it is appended to
  abbrev Apart : List ℕ → List ℕ → Type 0
  Apart is [] = Unit
  Apart is (j ∷ js) = (contains is j ≡ false) × Apart is js

  Apart-append :
      (is js : List ℕ) (i : ℕ) → Apart is js → contains js i ≡ false → Apart (is ++ i ∷ []) js
  Apart-append is [] i a h = tt
  Apart-append is (j ∷ js) i a h =
      ground (arith, contains-append is (i ∷ []) j, Apart-append is js i a.1)

  ids-set_many :
      (s : Index A) (g : ℕ) (xs : List A)
      → Distinct (map key xs)
      → Apart (ids s g) (map key xs)
      → ids (set_many key s g xs) g ≡ ids s g ++ map key xs
  unfolding set_many
  ids-set_many s g [] d a = sym (append-nil (ids s g))
  ids-set_many s g (x ∷ xs) d a =
      let step = ids-set_one s g x a.0 in
      ids-set_many (set_one key s g x) g xs d.1
        (rw step (Apart-append (ids s g) (map key xs) (key x) a.1 d.0))
      ∙ rw step (append_assoc (ids s g) (key x ∷ []) (map key xs))

  Apart-nil : (js : List ℕ) → Apart [] js
  Apart-nil [] = tt
  Apart-nil (j ∷ js) = (refl, Apart-nil js)

  -- What a guild without a list, or with an empty one, is given is what it then has, in the same order, if
  -- one item or more is given and no two of them have the same identifier.
  pub list-set_many :
      (s : Index A) (g : ℕ) (x : A) (xs : List A)
      → ids s g ≡ []
      → Distinct (map key (x ∷ xs))
      → list (set_many key s g (x ∷ xs)) g ≡ ok (x ∷ xs)
  unfolding list
  list-set_many s g x xs fresh d =
      let all =
        ids-set_many s g (x ∷ xs) d
          (subst (λ is. Apart is (map key (x ∷ xs))) (sym fresh) (Apart-nil (map key (x ∷ xs)))) in
      rw (all, fresh, collect-set_many s g (x ∷ xs) d) (ground arith)
