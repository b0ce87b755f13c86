-- ===== src/Bot/Queue/Tests.antt =====
-- Tests of the embed queue, on embeds that are their own length.
use catalogger.Base.{nat_eq, ℕ, ◌≡◌, refl, ◌⊎◌, List, [], ◌∷◌}
use catalogger.Bot.Queue.{
  total_length, new_queue, callback, enqueue, step, run_all, Event, submit, expire, run, execute,
}
use catalogger.Bot.Queue.Bounds.{IsBounded, batches-IsBounded}
use catalogger.Bot.Queue.Delivery.{IsDelivered, embeds-IsDelivered}
use catalogger.Bot.Queue.Liveness.{Drains, run_all-Drains}

abbrev size : ℕ → ℕ
size n = n

-- Two embeds that do not fit into one batch, then a stale callback: its timer had run out before the
-- second embed stopped it.
abbrev race : List (Event ℕ)
race = submit 3500 ∷ expire 0 ∷ submit 2500 ∷ run 0 ∷ submit 7 ∷ execute 0 ∷ []

race_executes : (run_all size new_queue race).executed ≡ (3500 ∷ []) ∷ (2500 ∷ []) ∷ []
unfolding run_all step new_queue enqueue callback total_length
race_executes = refl

batches-IsBounded_example : IsBounded size (run_all size new_queue race)
batches-IsBounded_example = batches-IsBounded size race

embeds-IsDelivered_example : IsDelivered (run_all size new_queue race) (3500 ∷ 2500 ∷ 7 ∷ [])
embeds-IsDelivered_example = embeds-IsDelivered size race

run_all-Drains_example :
    let s = run_all size new_queue race in (s.queue ≡ []) ⊎ ((t : ℕ) × Drains size s t)
run_all-Drains_example = run_all-Drains size race
