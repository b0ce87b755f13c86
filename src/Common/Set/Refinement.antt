-- ===== src/Common/Set/Refinement.antt =====
-- A concurrent set against the mathematical set it stands for, the predicate `exists s`.
use catalogger.Base.{
  Bool, not, ◌||◌, ◌&&◌, Option, none, some, List, [], ◌∷◌, Eq, ◌==◌, ◌≡◌, refl, arith, contains,
}
use mathlib.Core.Path.{fun_ext}
use catalogger.Base.GoMap
use catalogger.Base.GoMap.{get-put, get-del}
use catalogger.Common.Set.{Set, Entry, put_all, new_set, add, append, remove, exists, found}

module _ {T : Type 0} ⦃e : Eq T⦄ where
  pub exists-add : (s : Set T) (v w : T) → exists (add s v).0 w ≡ (v == w || exists s w)
  unfolding exists add
  exists-add s v w = ground (arith, get-put s.m v Entry.entry w)

  pub exists-remove : (s : Set T) (v w : T) → exists (remove s v).0 w ≡ (not (v == w) && exists s w)
  unfolding exists remove
  exists-remove s v w = ground (arith, get-del s.m v w)

  found-put_all :
      (m : GoMap.GoMap T Entry) (vs : List T) (w : T)
      → found (GoMap.get (put_all m vs) w) ≡ (contains vs w || found (GoMap.get m w))
  unfolding put_all
  found-put_all m [] w = refl
  found-put_all m (v ∷ vs) w =
      ground (arith, found-put_all (GoMap.put m v Entry.entry) vs w, get-put m v Entry.entry w)

  pub exists-append :
      (s : Set T) (vs : List T) (w : T) → exists (append s vs) w ≡ (contains vs w || exists s w)
  unfolding exists append
  exists-append s vs w = found-put_all s.m vs w

  pub exists-new_set : (vs : List T) (w : T) → exists (new_set vs) w ≡ contains vs w
  unfolding exists new_set GoMap.get
  exists-new_set vs w = ground (arith, found-put_all [] vs w)

-- The calls that a client makes.
pub data Call (T : Type 0) : Type 0 where
  adds removes asks : T → Call T
  appends : List T → Call T

module _ {T : Type 0} ⦃e : Eq T⦄ where
  -- The set after a call, and the answer to it (`Append` returns nothing).
  unfoldable pub call : Set T → Call T → Set T × Option Bool
  call s (adds v) = ((add s v).0, some (add s v).1)
  call s (removes v) = ((remove s v).0, some (remove s v).1)
  call s (asks v) = (s, some (exists s v))
  call s (appends vs) = (append s vs, none)

  unfoldable pub answers : Set T → List (Call T) → List (Option Bool)
  unfolding call
  answers s [] = []
  answers s (c ∷ cs) = (call s c).1 ∷ answers (call s c).0 cs

  -- The same calls on a mathematical set.
  abbrev spec_call : (T → Bool) → Call T → (T → Bool) × Option Bool
  spec_call p (adds v) = (λ w. v == w || p w, some (not (p v)))
  spec_call p (removes v) = (λ w. not (v == w) && p w, some (p v))
  spec_call p (asks v) = (p, some (p v))
  spec_call p (appends vs) = (λ w. contains vs w || p w, none)

  pub spec_answers : (T → Bool) → List (Call T) → List (Option Bool)
  spec_answers p [] = []
  spec_answers p (c ∷ cs) = (spec_call p c).1 ∷ spec_answers (spec_call p c).0 cs

  call-eq-spec :
      (s : Set T) (c : Call T)
      → (exists (call s c).0 ≡ (spec_call (exists s) c).0)
        × ((call s c).1 ≡ (spec_call (exists s) c).1)
  unfolding call
  call-eq-spec s (adds v) = (fun_ext (exists-add s v), unfold add exists in refl)
  call-eq-spec s (removes v) = (fun_ext (exists-remove s v), unfold remove exists in refl)
  call-eq-spec s (asks v) = (refl, refl)
  call-eq-spec s (appends vs) = (fun_ext (exists-append s vs), refl)

  -- Whatever the calls, the concurrent set answers as the mathematical set of its elements does.
  pub answers-eq-spec : (s : Set T) (cs : List (Call T)) → answers s cs ≡ spec_answers (exists s) cs
  unfolding answers spec_answers
  answers-eq-spec s [] = refl
  answers-eq-spec s (c ∷ cs) =
      let (state, answer) = call-eq-spec s c in rw (answers-eq-spec (call s c).0 cs, state, answer)
