-- ===== src/Bot/Queue.antt =====
-- bot/queue.go: the embed queue of one webhook, with its mutex and its timer. A step is what runs
-- between two points where another goroutine can come in: `queue` holds the mutex to its end (its
-- execution of the webhook included); the timer's callback holds it while it takes the embeds, and
-- executes the webhook after it let go. `Timer.Stop` does nothing to a timer that has fired, so a
-- callback that waits for the mutex runs all the same. `size` is arikawa's `Embed.Length`.
pub mod Bounds
pub mod Delivery
pub mod Liveness
mod Tests
use catalogger.Base.{
  nat_eq, leb, if◌then◌else◌, length, ◌==◌, contains, ℕ, zero, suc, ◌+◌, Bool, ◌||◌, Option, none,
  some, List, [], ◌∷◌, ◌++◌,
}

module _ {E : Type 0} (size : E → ℕ) where
  unfoldable pub total_length : List E → ℕ
  total_length [] = 0
  total_length (e ∷ es) = size e + total_length es

-- `time.NewTimer` gives each timer an identity, here a number.
pub record State (E : Type 0) : Type 0 where
  pub queue : List E
  pub timer : Option ℕ
  -- timers that are running, and timers whose callback waits for the mutex
  pub armed : List ℕ
  pub fired : List ℕ
  pub next_timer : ℕ
  -- batches that a callback took and has not executed yet
  pub in_flight : List (List E)
  -- the calls of `ExecuteAndWait`, in order; one that fails is logged and not repeated
  pub executed : List (List E)
  -- a history variable that the code does not have: all batches, in the order they left the queue
  pub taken : List (List E)

abbrev pub without : ℕ → List ℕ → List ℕ
without t [] = []
without t (u ∷ us) = let rest = without t us in if u == t then rest else u ∷ rest

module _ {E : Type 0} where
  unfoldable pub new_queue : State E
  new_queue = record {
    queue = [];
    timer = none;
    armed = [];
    fired = [];
    next_timer = 0;
    in_flight = [];
    executed = [];
    taken = [];
  }

  -- `q.timer.Stop(); q.timer = nil`, where there is a timer
  stop_timer : State E → State E
  stop_timer s = elim s.timer [
    | none ↦ s
    | some t ↦ record s { timer = none; armed = without t s.armed }
  ]

  -- the body of the first `if` of `queue`
  flush : State E → State E
  unfolding stop_timer
  flush s =
      let t = stop_timer (record s { queue = [] }) in
      record t { executed = t.executed ++ s.queue ∷ []; taken = t.taken ++ s.queue ∷ [] }

  -- `q.queue = append(q.queue, embed)`
  append_embed : State E → E → State E
  append_embed s embed = record s { queue = s.queue ++ embed ∷ [] }

  -- the last `if` of `queue`
  start_timer : State E → State E
  start_timer s = elim s.timer [
    | none ↦ record s {
      timer = some s.next_timer;
      armed = s.next_timer ∷ s.armed;
      next_timer = s.next_timer + 1;
    }
    | some t ↦ s
  ]

  -- `if len(embeds) == 0 { return }`: an empty queue is no batch
  abbrev pub add_batch : List (List E) → List E → List (List E)
  add_batch bs [] = bs
  add_batch bs (x ∷ xs) = bs ++ (x ∷ xs) ∷ []

  -- the function that `time.AfterFunc` runs, up to where it lets go of the mutex
  unfoldable pub callback : State E → ℕ → State E
  callback s t = record s {
    timer = none;
    queue = [];
    fired = without t s.fired;
    in_flight = add_batch s.in_flight s.queue;
    taken = add_batch s.taken s.queue;
  }

  -- the n-th element, and the list without it
  abbrev pub pick : ℕ → List (List E) → Option (List E × List (List E))
  pick n [] = none
  pick zero (b ∷ bs) = some (b, bs)
  pick (suc n) (b ∷ bs) = elim (pick n bs) [ none ↦ none | some (c, cs) ↦ some (c, b ∷ cs) ]

  -- the callback's call of `queueInner`, for one of the batches that were taken
  deliver : State E → Option (List E × List (List E)) → State E
  deliver s none = s
  deliver s (some (b, bs)) = record s { in_flight = bs; executed = s.executed ++ b ∷ [] }

module _ {E : Type 0} (size : E → ℕ) where
  needs_flush : List E → E → Bool
  unfolding total_length
  needs_flush queue embed = leb 6000 (total_length size queue + size embed) || leb 5 (length queue)

  unfoldable pub enqueue : State E → E → State E
  unfolding needs_flush flush append_embed start_timer
  enqueue s embed =
      start_timer (append_embed (if needs_flush s.queue embed then flush s else s) embed)

-- What can happen next: a handler queues an embed, a timer runs out, a callback that waits gets the
-- mutex, or a callback executes the n-th batch in flight.
pub data Event (E : Type 0) : Type 0 where
  submit : E → Event E
  expire run : ℕ → Event E
  execute : ℕ → Event E

module _ {E : Type 0} (size : E → ℕ) where
  -- An event that cannot happen in a state leaves it as it is.
  unfoldable pub step : State E → Event E → State E
  unfolding enqueue callback deliver
  step s (submit e) = enqueue size s e
  step s (expire t) =
      if contains s.armed t then record s { armed = without t s.armed; fired = t ∷ s.fired } else s
  step s (run t) = if contains s.fired t then callback s t else s
  step s (execute n) = deliver s (pick n s.in_flight)

  -- any interleaving of handlers, timers and callbacks
  unfoldable pub run_all : State E → List (Event E) → State E
  run_all s [] = s
  run_all s (v ∷ vs) = run_all (step s v) vs

abbrev pub submitted : {E : Type 0} → List (Event E) → List E
submitted [] = []
submitted (submit e ∷ vs) = e ∷ submitted vs
submitted (_ ∷ vs) = submitted vs
