-- ===== src/Bot/Queue/Bounds.antt =====
-- What a batch may hold (bot/queue.go).
use catalogger.Bot.Queue.{
  execute, run, expire, submit, stop_timer, Event, step, start_timer, run_all, new_queue, flush,
  enqueue, deliver, callback, append_embed, needs_flush, total_length, pick, State,
}
use catalogger.Base.{
  Bool-cases, length, All, length-append, All-append, ℕ, zero, suc, ◌+◌, ◌≤◌, ◌<◌, ◌≡◌, ◌⊎◌, inl,
  inr, false, Option, none, some, List, [], ◌∷◌, ◌++◌, arith,
}

module _ {E : Type 0} (size : E → ℕ) where
  -- Within Discord's limits, or a single embed, which no queue can make smaller.
  abbrev pub IsSendable : List E → Type 0
  IsSendable b = (length b ≤ 5) × ((total_length size b < 6000) ⊎ (length b ≤ 1))

  pub record IsBounded (s : State E) : Type 0 where
    pub queue : IsSendable s.queue
    pub in_flight : All IsSendable s.in_flight
    pub executed : All IsSendable s.executed

  total_length-append :
      (xs ys : List E) → total_length size (xs ++ ys) ≡ total_length size xs + total_length size ys
  unfolding total_length
  total_length-append [] ys = omega arith
  total_length-append (x ∷ xs) ys = omega (arith, total_length-append xs ys)

  IsSendable-one : (e : E) → IsSendable (e ∷ [])
  IsSendable-one e = (omega arith, inr (omega arith))

  IsSendable-empty : IsSendable []
  IsSendable-empty = (omega arith, inr (omega arith))

  IsSendable-more :
      (b : List E) (e : E) → needs_flush size b e ≡ false → IsSendable b → IsSendable (b ++ e ∷ [])
  unfolding needs_flush total_length
  IsSendable-more b e h k = ground (arith, total_length-append b (e ∷ []), length-append b (e ∷ []))

  abbrev AllPicked : Option (List E × List (List E)) → Type 0
  AllPicked none = Unit
  AllPicked (some (b, bs)) = IsSendable b × All IsSendable bs

  AllPicked-cons :
      (c : List E) (p : Option (List E × List (List E)))
      → IsSendable c
      → AllPicked p
      → AllPicked (elim p [ none ↦ none | some (d, ds) ↦ some (d, c ∷ ds) ])
  AllPicked-cons c none k a = tt
  AllPicked-cons c (some (d, ds)) k a = (a.0, (k, a.1))

  All-pick : (n : ℕ) (bs : List (List E)) → All IsSendable bs → AllPicked (pick n bs)
  All-pick n [] a = tt
  All-pick zero (c ∷ cs) a = a
  All-pick (suc n) (c ∷ cs) a = AllPicked-cons c (pick n cs) a.0 (All-pick n cs a.1)

  deliver-IsBounded :
      (s : State E) (p : Option (List E × List (List E)))
      → AllPicked p
      → IsBounded s
      → IsBounded (deliver s p)
  unfolding deliver
  deliver-IsBounded s none a v = v
  deliver-IsBounded s (some (b, bs)) a v = record {
    queue = v.queue;
    in_flight = a.1;
    executed = All-append IsSendable s.executed (b ∷ []) v.executed (a.0, tt);
  }

  flush-IsBounded : (s : State E) → IsBounded s → IsBounded (flush s)
  unfolding flush stop_timer
  flush-IsBounded s v = record {
    queue = ground (arith, IsSendable-empty);
    in_flight = ground arith;
    executed =
        ground (arith, All-append IsSendable s.executed (s.queue ∷ []) v.executed (v.queue, tt));
  }

  append_embed-IsBounded :
      (s : State E) (e : E)
      → IsSendable (s.queue ++ e ∷ [])
      → IsBounded s
      → IsBounded (append_embed s e)
  unfolding append_embed
  append_embed-IsBounded s e k v = record {
    queue = k;
    in_flight = v.in_flight;
    executed = v.executed;
  }

  start_timer-IsBounded : (s : State E) → IsBounded s → IsBounded (start_timer s)
  unfolding start_timer
  start_timer-IsBounded s v = ground arith

  queue-flush : (s : State E) → (flush s).queue ≡ []
  unfolding flush stop_timer
  queue-flush s = ground arith

  enqueue-IsBounded : (s : State E) (e : E) → IsBounded s → IsBounded (enqueue size s e)
  unfolding enqueue
  enqueue-IsBounded s e v = elim (Bool-cases (needs_flush size s.queue e)) [
    | inl full ↦ rw full (
        start_timer-IsBounded _ (
          append_embed-IsBounded (flush s) e (rw queue-flush (IsSendable-one e))
            (flush-IsBounded s v)))
    | inr room ↦ rw room (
        start_timer-IsBounded _
          (append_embed-IsBounded s e (IsSendable-more s.queue e room v.queue) v))
  ]

  callback-IsBounded : (s : State E) (t : ℕ) → IsBounded s → IsBounded (callback s t)
  unfolding callback
  callback-IsBounded s t v = record {
    queue = IsSendable-empty;
    in_flight =
        ground (arith, All-append IsSendable s.in_flight (s.queue ∷ []) v.in_flight (v.queue, tt));
    executed = v.executed;
  }

  step-IsBounded : (s : State E) (v : Event E) → IsBounded s → IsBounded (step size s v)
  unfolding step
  step-IsBounded s (submit e) k = enqueue-IsBounded s e k
  step-IsBounded s (expire t) k = ground arith
  step-IsBounded s (run t) k = ground (arith, callback-IsBounded s t k)
  step-IsBounded s (execute n) k =
      deliver-IsBounded s (pick n s.in_flight) (All-pick n s.in_flight k.in_flight) k

  run_all-IsBounded :
      (s : State E) (vs : List (Event E)) → IsBounded s → IsBounded (run_all size s vs)
  unfolding run_all
  run_all-IsBounded s [] k = k
  run_all-IsBounded s (v ∷ vs) k = run_all-IsBounded (step size s v) vs (step-IsBounded s v k)

  -- From the new queue, under any interleaving of handlers, timers and callbacks, every batch that is
  -- executed or on its way holds at most five embeds, of less than 6000 characters together unless it
  -- is a single embed; and so does the queue at any time.
  pub batches-IsBounded : (vs : List (Event E)) → IsBounded (run_all size new_queue vs)
  unfolding new_queue
  batches-IsBounded vs =
      run_all-IsBounded new_queue vs
        (record { queue = IsSendable-empty; in_flight = tt; executed = tt })
