-- ===== src/Common/Map/Refinement.antt =====
-- A concurrent map against the partial function it stands for.
use mathlib.Core.Path.{fun_ext}
use catalogger.Base.GoMap.{get-put, get-del}
use catalogger.Base.{if◌then◌else◌, ◌==◌, Eq, ◌≡◌, refl, Bool, Option, none, some, List, [], ◌∷◌}
use catalogger.Common.Set.{found}
use catalogger.Common.Map.{set, get, remove, exists, Map}

pub data Call (K V : Type 0) : Type 0 where
  sets : K → V → Call K V
  gets removes asks : K → Call K V

-- What a call returns: nothing, a value, or a truth value.
pub data Reply (V : Type 0) : Type 0 where
  nothing : Reply V
  value : Option V → Reply V
  truth : Bool → Reply V

module _ {K V : Type 0} ⦃e : Eq K⦄ where
  call : Map K V → Call K V → Map K V × Reply V
  call m (sets k v) = (set m k v, nothing)
  call m (gets k) = (m, value (get m k))
  call m (removes k) = ((remove m k).0, truth (remove m k).1)
  call m (asks k) = (m, truth (exists m k))

  pub replies : Map K V → List (Call K V) → List (Reply V)
  unfolding call
  replies m [] = []
  replies m (c ∷ cs) = (call m c).1 ∷ replies (call m c).0 cs

  abbrev spec_call : (K → Option V) → Call K V → (K → Option V) × Reply V
  spec_call f (sets k v) = (λ j. if k == j then some v else f j, nothing)
  spec_call f (gets k) = (f, value (f k))
  spec_call f (removes k) = (λ j. if k == j then none else f j, truth (found (f k)))
  spec_call f (asks k) = (f, truth (found (f k)))

  pub spec_replies : (K → Option V) → List (Call K V) → List (Reply V)
  spec_replies f [] = []
  spec_replies f (c ∷ cs) = (spec_call f c).1 ∷ spec_replies (spec_call f c).0 cs

  call-eq-spec :
      (m : Map K V) (c : Call K V)
      → (get (call m c).0 ≡ (spec_call (get m) c).0) × ((call m c).1 ≡ (spec_call (get m) c).1)
  unfolding call get
  call-eq-spec m (sets k v) = (fun_ext (λ j. unfold set in get-put m.m k v j), refl)
  call-eq-spec m (gets k) = (refl, refl)
  call-eq-spec m (removes k) =
      (fun_ext (λ j. unfold remove in get-del m.m k j), unfold remove in refl)
  call-eq-spec m (asks k) = (refl, unfold exists in refl)

  -- Whatever the calls, the concurrent map answers as a partial function from keys to values does.
  pub replies-eq-spec :
      (m : Map K V) (cs : List (Call K V)) → replies m cs ≡ spec_replies (get m) cs
  unfolding replies spec_replies
  replies-eq-spec m [] = refl
  replies-eq-spec m (c ∷ cs) =
      let (state, answer) = call-eq-spec m c in rw (replies-eq-spec (call m c).0 cs, state, answer)
