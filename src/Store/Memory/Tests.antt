-- ===== src/Store/Memory/Tests.antt =====
-- Tests of the store in memory.
use catalogger.Base.{nat_eq, ok, bytes, ◌≡◌, refl, List, [], ◌∷◌, ◌++◌}
use catalogger.Base.GoMap
use catalogger.Discord.{Channel}
use catalogger.Store.Memory.Index.{Index, empty, list, set_one, set_many, remove_one}
use catalogger.Store.Memory.Index.Laws.{list-set_many}
use catalogger.Store.Memory.Index.Removal.{Keyed, set_one-Keyed, list-remove_one_twice}
use catalogger.Store.Memory.Channels.{channel_key}

abbrev general : Channel
general = record { id = 11; type = 0; parent_id = 0; name = bytes "general" }

abbrev help : Channel
help = record { id = 12; type = 0; parent_id = 0; name = bytes "help" }

abbrev thread : Channel
thread = record { id = 13; type = 11; parent_id = 12; name = bytes "a question" }

abbrev three : Index Channel
three = set_many channel_key empty 1 (general ∷ help ∷ thread ∷ [])

list-set_many_example : list three 1 ≡ ok (general ∷ help ∷ thread ∷ [])
list-set_many_example =
    list-set_many channel_key empty 1 general (help ∷ thread ∷ []) (unfold GoMap.get in refl)
      (refl, (refl, (refl, tt)))

-- Without the middle one of three channels, the last one is listed twice.
list-remove_one_twice_example :
    (ys : List Channel) × (list (remove_one three 1 12) 1 ≡ ok (ys ++ thread ∷ thread ∷ []))
unfolding set_many set_one GoMap.get GoMap.put
list-remove_one_twice_example =
    list-remove_one_twice three 1 12 11 13 [] [] thread refl refl refl refl

empty-Keyed : Keyed channel_key empty.items
unfolding GoMap.get
empty-Keyed i a h = cc

three-Keyed : Keyed channel_key three.items
unfolding set_many
three-Keyed =
    set_one-Keyed channel_key (set_one channel_key (set_one channel_key empty 1 general) 1 help) 1
      thread
      (set_one-Keyed channel_key (set_one channel_key empty 1 general) 1 help
        (set_one-Keyed channel_key empty 1 general empty-Keyed))
