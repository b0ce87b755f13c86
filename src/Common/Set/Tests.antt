-- ===== src/Common/Set/Tests.antt =====
-- Tests of the concurrent set, on the identifiers of messages.
use catalogger.Base.{
  if◌then◌else◌, ℕ, ◌+◌, ◌≡◌, refl, true, false, none, some, List, [], ◌∷◌, nat_eq,
}
use catalogger.Base.GoMap
use catalogger.Common.Set.{new_set, add, append, remove, exists, length}
use catalogger.Common.Set.Refinement.{
  answers, spec_answers, answers-eq-spec, Call, adds, removes, asks, appends,
}
use catalogger.Common.Set.Size.{length_changes}

abbrev history : List (Call ℕ)
history = adds 7 ∷ adds 7 ∷ asks 9 ∷ removes 7 ∷ removes 7 ∷ appends (3 ∷ 4 ∷ []) ∷ asks 4 ∷ []

answers_computed :
    answers (new_set (5 ∷ [])) history
    ≡ some true ∷ some false ∷ some false ∷ some true ∷ some false ∷ none ∷ some true ∷ []
unfolding answers new_set add remove append exists GoMap.put GoMap.get GoMap.del
answers_computed = refl

answers-eq-spec_example :
    answers (new_set (5 ∷ [])) history ≡ spec_answers (exists (new_set (5 ∷ []))) history
answers-eq-spec_example = answers-eq-spec (new_set (5 ∷ [])) history

length_changes_example :
    let s = new_set {T = ℕ} (5 ∷ 6 ∷ []) in
    (length (add s 7).0 ≡ (if (add s 7).1 then length s + 1 else length s))
    × (length s ≡ (if (remove s 7).1 then length (remove s 7).0 + 1 else length (remove s 7).0))
unfolding new_set GoMap.put
length_changes_example = length_changes (new_set (5 ∷ 6 ∷ [])) 7 ((refl, tt), (tt, tt))
