-- ===== src/Bot/Queue/Liveness.antt =====
-- The embeds that wait and the timer that empties the queue (bot/queue.go).
use catalogger.Bot.Queue.{
  stop_timer, start_timer, needs_flush, flush, deliver, append_embed, without, new_queue, callback,
  pick, enqueue, step, run_all, State, Event, submit, expire, run, execute,
}
use catalogger.Base.{
  nat_eq, Bool-cases, ◌==◌, contains, ℕ, ◌≡◌, refl, subst, ◌⊎◌, inl, inr, true, not, ◌&&◌, ◌||◌,
  Option, none, some, List, [], ◌∷◌, ◌++◌, arith,
}

-- Where the queue has a timer, its callback has not run yet.
abbrev IsPending : List ℕ → List ℕ → Option ℕ → Type 0
IsPending armed fired none = Unit
IsPending armed fired (some t) = (contains armed t || contains fired t) ≡ true

record IsTimed {E : Type 0} (s : State E) : Type 0 where
  pending : IsPending s.armed s.fired s.timer
  timed : (s.queue ≡ []) ⊎ ((t : ℕ) × (s.timer ≡ some t))

contains-without :
    (t u : ℕ) (us : List ℕ) → contains (without t us) u ≡ (not (t == u) && contains us u)
contains-without t u [] = ground arith
contains-without t u (x ∷ xs) = ground (arith, contains-without t u xs)

expire-IsPending :
    (armed fired : List ℕ) (t : ℕ) (timer : Option ℕ)
    → IsPending armed fired timer
    → IsPending (without t armed) (t ∷ fired) timer
expire-IsPending armed fired t none p = tt
expire-IsPending armed fired t (some u) p = ground (arith, contains-without t u armed)

module _ {E : Type 0} where
  start_timer-IsTimed : (s : State E) → IsPending s.armed s.fired s.timer → IsTimed (start_timer s)
  unfolding start_timer
  start_timer-IsTimed s p = by_timer s.timer refl
    where
      by_timer : (o : Option ℕ) → s.timer ≡ o → IsTimed (start_timer s)
      by_timer none e =
          rw (e, start_timer) (record { pending = ground arith; timed = inr (s.next_timer, refl) })
      by_timer (some t) e = rw (e, start_timer) (record { pending = p; timed = inr (t, e) })

  flush-IsPending : (s : State E) → IsPending (flush s).armed (flush s).fired (flush s).timer
  unfolding flush stop_timer
  flush-IsPending s = ground arith

  append_embed-IsPending :
      (s : State E) (e : E)
      → IsPending s.armed s.fired s.timer
      → IsTimed (start_timer (append_embed s e))
  unfolding append_embed
  append_embed-IsPending s e p = start_timer-IsTimed (record s { queue = s.queue ++ e ∷ [] }) p

  deliver-IsTimed :
      (s : State E) (p : Option (List E × List (List E))) → IsTimed s → IsTimed (deliver s p)
  unfolding deliver
  deliver-IsTimed s none k = k
  deliver-IsTimed s (some (b, bs)) k = record { pending = k.pending; timed = k.timed }

module _ {E : Type 0} (size : E → ℕ) where
  enqueue-IsTimed : (s : State E) (e : E) → IsTimed s → IsTimed (enqueue size s e)
  unfolding enqueue
  enqueue-IsTimed s e k = elim (Bool-cases (needs_flush size s.queue e)) [
    | inl full ↦ rw full (append_embed-IsPending (flush s) e (flush-IsPending s))
    | inr room ↦ rw room (append_embed-IsPending s e k.pending)
  ]

  expire-IsTimed : (s : State E) (t : ℕ) → IsTimed s → IsTimed (step size s (expire t))
  unfolding step
  expire-IsTimed s t k = elim (Bool-cases (contains s.armed t)) [
    | inl held ↦
        rw held (record {
          pending = expire-IsPending s.armed s.fired t s.timer k.pending;
          timed = k.timed;
        })
    | inr gone ↦ rw gone k
  ]

  run-IsTimed : (s : State E) (t : ℕ) → IsTimed s → IsTimed (step size s (run t))
  unfolding step callback
  run-IsTimed s t k = elim (Bool-cases (contains s.fired t)) [
    | inl held ↦ rw held (record { pending = tt; timed = inl refl })
    | inr gone ↦ rw gone k
  ]

  step-IsTimed : (s : State E) (v : Event E) → IsTimed s → IsTimed (step size s v)
  unfolding step
  step-IsTimed s (submit e) k = enqueue-IsTimed s e k
  step-IsTimed s (expire t) k = expire-IsTimed s t k
  step-IsTimed s (run t) k = run-IsTimed s t k
  step-IsTimed s (execute n) k = deliver-IsTimed s (pick n s.in_flight) k

  run_all-IsTimed : (s : State E) (vs : List (Event E)) → IsTimed s → IsTimed (run_all size s vs)
  unfolding run_all
  run_all-IsTimed s [] k = k
  run_all-IsTimed s (v ∷ vs) k = run_all-IsTimed (step size s v) vs (step-IsTimed s v k)

  -- the state once timer t has run out and its callback has had the mutex
  abbrev pub timeout : State E → ℕ → State E
  timeout s t = step size (step size s (expire t)) (run t)

  -- The timer takes the whole queue as one batch.
  abbrev pub Drains : State E → ℕ → Type 0
  Drains s t = ((timeout s t).queue ≡ []) × ((timeout s t).in_flight ≡ s.in_flight ++ s.queue ∷ [])

  timeout-Drains :
      (s : State E) (t : ℕ) (x : E) (xs : List E)
      → s.queue ≡ x ∷ xs
      → (contains s.armed t || contains s.fired t) ≡ true
      → Drains s t
  unfolding step callback
  timeout-Drains s t x xs q p = ground (arith, contains-without t t s.armed)

  IsTimed-Drains :
      (s : State E) (q : List E) → s.queue ≡ q → IsTimed s → (q ≡ []) ⊎ ((t : ℕ) × Drains s t)
  IsTimed-Drains s [] e k = inl refl
  IsTimed-Drains s (x ∷ xs) e k = elim k.timed [
    | inl none_left ↦ inl (ground arith)
    | inr (t, timer) ↦
        inr (t, timeout-Drains s t x xs e (subst (IsPending s.armed s.fired) timer k.pending))
  ]

  -- Whatever happened before, where embeds are queued there is a timer whose end empties the queue
  -- into a batch on its way to Discord.
  pub run_all-Drains :
      (vs : List (Event E))
      → let s = run_all size new_queue vs in (s.queue ≡ []) ⊎ ((t : ℕ) × Drains s t)
  unfolding new_queue
  run_all-Drains vs =
      IsTimed-Drains (run_all size new_queue vs) _ refl
        (run_all-IsTimed new_queue vs (record { pending = tt; timed = inl refl }))
