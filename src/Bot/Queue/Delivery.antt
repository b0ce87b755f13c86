-- ===== src/Bot/Queue/Delivery.antt =====
-- The embeds that were queued and those that were sent (bot/queue.go).
use catalogger.Bot.Queue.{
  run_all, new_queue, add_batch, execute, run, expire, submit, submitted, without, needs_flush,
  Event, step, start_timer, pick, enqueue, deliver, callback, append_embed, stop_timer, flush,
  State,
}
use mathlib.Core.List.Perm
use mathlib.Core.List.{Perm, perm_middle, perm_append_singleton, append_assoc, append-nil}
use catalogger.Base.{
  Bool-cases, ℕ, zero, suc, ◌+◌, ◌≡◌, refl, sym, ap, ◌∙◌, subst, inl, inr, Option, none, some, List,
  [], ◌∷◌, ◌++◌, arith,
}

abbrev pub concat : {E : Type 0} → List (List E) → List E
concat [] = []
concat (b ∷ bs) = b ++ concat bs

concat-append : {E : Type 0} (xs ys : List (List E)) → concat (xs ++ ys) ≡ concat xs ++ concat ys
concat-append [] ys = refl
concat-append (x ∷ xs) ys = rw (concat-append xs ys, append_assoc)

module _ {E : Type 0} where
  -- The embeds queued so far are the batches that left the queue, in order, and then the queue; each
  -- batch that left it was executed or is on its way, once.
  pub record IsDelivered (s : State E) (queued : List E) : Type 0 where
    pub in_order : concat s.taken ++ s.queue ≡ queued
    pub batches : Perm (s.executed ++ s.in_flight) s.taken

  concat-snoc : (bs : List (List E)) (b : List E) → concat (bs ++ b ∷ []) ≡ concat bs ++ b
  concat-snoc bs b = rw (concat-append, append-nil)

  move_last :
      (xs ys : List (List E)) {zs : List (List E)} (b : List E)
      → Perm (xs ++ ys) zs
      → Perm (xs ++ (ys ++ b ∷ [])) (zs ++ b ∷ [])
  move_last xs ys {zs} b p =
      subst (λ l. Perm l (zs ++ b ∷ [])) (append_assoc xs ys (b ∷ []))
        (Perm.append_right (b ∷ []) p)

  move_middle :
      (xs ys : List (List E)) {zs : List (List E)} (b : List E)
      → Perm (xs ++ ys) zs
      → Perm ((xs ++ b ∷ []) ++ ys) (zs ++ b ∷ [])
  move_middle xs ys {zs} b p =
      subst (λ l. Perm l (zs ++ b ∷ [])) (sym (append_assoc xs (b ∷ []) ys))
        (Perm.trans (perm_middle xs ys)
          (Perm.trans (Perm.cons b p) (Perm.symm (perm_append_singleton b zs))))

  flush_lem :
      (s : State E)
      → ((flush s).queue ≡ [])
        × ((flush s).in_flight ≡ s.in_flight)
        × ((flush s).executed ≡ s.executed ++ s.queue ∷ [])
        × ((flush s).taken ≡ s.taken ++ s.queue ∷ [])
  unfolding flush stop_timer
  flush_lem s = ground arith

  flush-IsDelivered :
      {s : State E} {queued : List E} → IsDelivered s queued → IsDelivered (flush s) queued
  flush-IsDelivered {s} d =
      let (queue, in_flight, executed, taken) = flush_lem s in
      record {
        in_order = rw (queue, taken, concat-snoc s.taken s.queue) (append-nil _ ∙ d.in_order);
        batches =
            rw (executed, in_flight, taken) (move_middle s.executed s.in_flight s.queue d.batches);
      }

  append_embed-IsDelivered :
      {s : State E} {queued : List E} (e : E)
      → IsDelivered s queued
      → IsDelivered (append_embed s e) (queued ++ e ∷ [])
  unfolding append_embed
  append_embed-IsDelivered {s} e d = record {
    in_order =
        sym (append_assoc (concat s.taken) s.queue (e ∷ [])) ∙ ap (λ l. l ++ e ∷ []) d.in_order;
    batches = d.batches;
  }

  start_timer-IsDelivered :
      {s : State E} {queued : List E} → IsDelivered s queued → IsDelivered (start_timer s) queued
  unfolding start_timer
  start_timer-IsDelivered {s} {queued} d =
      elim s.timer
        as (λ o.
          IsDelivered
            (elim o [
              | none ↦ record s {
                timer = some s.next_timer;
                armed = s.next_timer ∷ s.armed;
                next_timer = s.next_timer + 1;
              }
              | some t ↦ s
            ])
            queued) [ none ↦ record { in_order = d.in_order; batches = d.batches } | some t ↦ d ]

  callback-IsDelivered :
      (s : State E) (queued : List E) (t : ℕ)
      → IsDelivered s queued
      → IsDelivered (callback s t) queued
  unfolding callback
  callback-IsDelivered s queued t d = by_queue s.queue d.in_order
    where
      by_queue :
          (q : List E)
          → concat s.taken ++ q ≡ queued
          → IsDelivered
              (record s {
                timer = none;
                queue = [];
                fired = without t s.fired;
                in_flight = add_batch s.in_flight q;
                taken = add_batch s.taken q;
              })
              queued
      by_queue [] e = record { in_order = e; batches = d.batches }
      by_queue (x ∷ xs) e = record {
        in_order = append-nil _ ∙ concat-snoc s.taken (x ∷ xs) ∙ e;
        batches = move_last s.executed s.in_flight (x ∷ xs) d.batches;
      }

  abbrev Picked : List (List E) → Option (List E × List (List E)) → Type 0
  Picked bs none = Unit
  Picked bs (some (c, cs)) = Perm (c ∷ cs) bs

  Picked-cons :
      (b : List E) (bs : List (List E)) (p : Option (List E × List (List E)))
      → Picked bs p
      → Picked (b ∷ bs) (elim p [ none ↦ none | some (c, cs) ↦ some (c, b ∷ cs) ])
  Picked-cons b bs none k = tt
  Picked-cons b bs (some (c, cs)) k = Perm.trans (Perm.swap b c cs) (Perm.cons b k)

  pick-Picked : (n : ℕ) (bs : List (List E)) → Picked bs (pick n bs)
  pick-Picked n [] = tt
  pick-Picked zero (b ∷ bs) = Perm.refl (b ∷ bs)
  pick-Picked (suc n) (b ∷ bs) = Picked-cons b bs (pick n bs) (pick-Picked n bs)

  deliver-IsDelivered :
      (s : State E) (queued : List E) (p : Option (List E × List (List E)))
      → Picked s.in_flight p
      → IsDelivered s queued
      → IsDelivered (deliver s p) queued
  unfolding deliver
  deliver-IsDelivered s queued none k d = d
  deliver-IsDelivered s queued (some (b, bs)) k d = record {
    in_order = d.in_order;
    batches =
        Perm.trans
          (subst (λ l. Perm l (s.executed ++ s.in_flight))
            (sym (append_assoc s.executed (b ∷ []) bs)) (Perm.append_left s.executed k))
          d.batches;
  }

module _ {E : Type 0} (size : E → ℕ) where
  enqueue-IsDelivered :
      (s : State E) (queued : List E) (e : E)
      → IsDelivered s queued
      → IsDelivered (enqueue size s e) (queued ++ e ∷ [])
  unfolding enqueue
  enqueue-IsDelivered s queued e d = elim (Bool-cases (needs_flush size s.queue e)) [
    | inl full ↦
        rw full (start_timer-IsDelivered (append_embed-IsDelivered e (flush-IsDelivered d)))
    | inr room ↦ rw room (start_timer-IsDelivered (append_embed-IsDelivered e d))
  ]

  step-IsDelivered :
      (s : State E) (queued : List E) (v : Event E)
      → IsDelivered s queued
      → IsDelivered (step size s v) (queued ++ submitted (v ∷ []))
  unfolding step
  step-IsDelivered s queued (submit e) d = enqueue-IsDelivered s queued e d
  step-IsDelivered s queued (expire t) d = rw (append-nil queued) (ground arith)
  step-IsDelivered s queued (run t) d =
      rw (append-nil queued) (ground (arith, callback-IsDelivered s queued t d))
  step-IsDelivered s queued (execute n) d =
      rw (append-nil queued)
        (deliver-IsDelivered s queued (pick n s.in_flight) (pick-Picked n s.in_flight) d)

  submitted-cons :
      (v : Event E) (vs : List (Event E)) → submitted (v ∷ vs) ≡ submitted (v ∷ []) ++ submitted vs
  submitted-cons (submit e) vs = refl
  submitted-cons (expire t) vs = refl
  submitted-cons (run t) vs = refl
  submitted-cons (execute n) vs = refl

  run_all-IsDelivered :
      (s : State E) (queued : List E) (vs : List (Event E))
      → IsDelivered s queued
      → IsDelivered (run_all size s vs) (queued ++ submitted vs)
  unfolding run_all
  run_all-IsDelivered s queued [] d = rw append-nil d
  run_all-IsDelivered s queued (v ∷ vs) d =
      rw (submitted-cons v vs, ← append_assoc)
        (run_all-IsDelivered (step size s v) (queued ++ submitted (v ∷ [])) vs
          (step-IsDelivered s queued v d))

  -- Under any interleaving of handlers, timers and callbacks, the batches that left the queue and
  -- then the queue itself hold the submitted embeds, each once and in order, and the batches that
  -- left it are those that were executed and those on their way, each once.
  pub embeds-IsDelivered :
      (vs : List (Event E)) → IsDelivered (run_all size new_queue vs) (submitted vs)
  unfolding new_queue
  embeds-IsDelivered vs =
      run_all-IsDelivered new_queue [] vs (record { in_order = refl; batches = Perm.nil })
