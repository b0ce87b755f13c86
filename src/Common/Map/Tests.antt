-- ===== src/Common/Map/Tests.antt =====
-- Tests of the concurrent map.
use catalogger.Base.{nat_eq}
use catalogger.Base.{ℕ, ◌≡◌, List, [], ◌∷◌}
use catalogger.Common.Map.{new_map, get}
use catalogger.Common.Map.Refinement.{
  replies, spec_replies, replies-eq-spec, Call, sets, gets, removes, asks,
}

abbrev history : List (Call ℕ ℕ)
history = sets 1 10 ∷ gets 1 ∷ removes 1 ∷ asks 1 ∷ gets 1 ∷ []

replies-eq-spec_example :
    replies (new_map {K = ℕ} {V = ℕ}) history ≡ spec_replies (get new_map) history
replies-eq-spec_example = replies-eq-spec new_map history
