-- ===== src/Bot/Send/Queues.antt =====
-- The queues of all webhooks under the calls of `Send` (bot/queue.go).
use catalogger.Bot.Send.{
  executes, runs, should_queue, expires, sends, queue_or_execute, with_webhook, webhook_client,
  step_queue, send_some, or_new, SendAction, send_to, send, queue_embed, execute_now, act_all, act,
  SendData, Outgoing, Client, Outcome, queued, executed,
}
use catalogger.Base.{
  nat_eq, if◌then◌else◌, nat_beq_iff, Bool-cases, branch, ◌==◌, Result, ok, err, ℕ, String, ◌≡◌,
  refl, sym, ap, ◌∙◌, subst, inl, inr, Option, none, some, List, [], ◌∷◌, ◌++◌, arith,
}
use catalogger.Base.GoMap
use catalogger.Base.GoMap.{get-put}
use catalogger.Discord.{Discord, Embed, File, Webhook}
use catalogger.Db.Guilds as Guilds
use catalogger.Store.Server.{Redis}
use catalogger.Bot.Webhooks.{Decimal, Rest, get_webhook}
use catalogger.Bot.Queue.{State, Event, new_queue, enqueue, step, run_all, submitted}
use catalogger.Bot.Queue.Bounds.{IsBounded, batches-IsBounded}
use catalogger.Bot.Queue.Delivery.{IsDelivered, embeds-IsDelivered}

-- what the journal says was put into the queue of a webhook, in order
abbrev pub queued_for : ℕ → List Outcome → List Embed
queued_for id [] = []
queued_for id (executed c es fs ∷ js) = queued_for id js
queued_for id (queued i e ∷ js) = let more = queued_for id js in if i == id then e ∷ more else more

queued_for-queued :
    (id i : ℕ) (e : Embed) (js : List Outcome)
    → queued_for id (js ++ Outcome.queued i e ∷ [])
      ≡ (if i == id then queued_for id js ++ e ∷ [] else queued_for id js)
queued_for-queued id i e [] = refl
queued_for-queued id i e (Outcome.executed c es fs ∷ js) = queued_for-queued id i e js
queued_for-queued id i e (Outcome.queued k x ∷ js) = ground (arith, queued_for-queued id i e js)

queued_for-executed :
    (id : ℕ) (c : Client) (es : List Embed) (fs : List File) (js : List Outcome)
    → queued_for id (js ++ Outcome.executed c es fs ∷ []) ≡ queued_for id js
queued_for-executed id c es fs [] = refl
queued_for-executed id c es fs (Outcome.executed c' es' fs' ∷ js) =
    queued_for-executed id c es fs js
queued_for-executed id c es fs (Outcome.queued k x ∷ js) =
    ground (arith, queued_for-executed id c es fs js)

module _ (size : Embed → ℕ) where
  run_all-append :
      (s : State Embed) (vs : List (Event Embed)) (v : Event Embed)
      → run_all size s (vs ++ v ∷ []) ≡ step size (run_all size s vs) v
  unfolding run_all
  run_all-append s [] v = refl
  run_all-append s (x ∷ vs) v = run_all-append (step size s x) vs v

  submitted-append :
      (vs : List (Event Embed)) (v : Event Embed)
      → submitted (vs ++ v ∷ []) ≡ submitted vs ++ submitted (v ∷ [])
  submitted-append [] v = refl
  submitted-append (Event.submit e ∷ vs) v = ap (λ es. e ∷ es) (submitted-append vs v)
  submitted-append (Event.expire t ∷ vs) v = submitted-append vs v
  submitted-append (Event.run t ∷ vs) v = submitted-append vs v
  submitted-append (Event.execute i ∷ vs) v = submitted-append vs v

  -- a queue that the steps of a single webhook's queue lead to, with these embeds submitted
  Reached : State Embed → List Embed → Type 0
  Reached q es = (vs : List (Event Embed)) × (q ≡ run_all size new_queue vs) × (submitted vs ≡ es)

  Reached-step :
      (q : State Embed) (es : List Embed) (v : Event Embed)
      → Reached q es
      → Reached (step size q v) (es ++ submitted (v ∷ []))
  unfolding Reached
  Reached-step q es v (vs, h, k) = (
    vs ++ v ∷ [],
    ap (λ s. step size s v) h ∙ sym (run_all-append new_queue vs v),
    submitted-append vs v ∙ ap (λ xs. xs ++ submitted (v ∷ [])) k,
  )

  Reached-new : Reached new_queue []
  unfolding Reached run_all
  Reached-new = ([], refl, refl)

  -- every webhook's queue holds what the journal has for it
  Inv : {R : Type 0} → Outgoing R → Type 0
  Inv s = (id : ℕ) → Reached (or_new (GoMap.get s.queues id)) (queued_for id s.journal)

  step_queue-Inv :
      {R : Type 0} (id : ℕ) (v : Event Embed) (s : Outgoing R)
      → submitted (v ∷ []) ≡ []
      → Inv s
      → Inv (step_queue size id v (GoMap.get s.queues id) s)
  unfolding Inv
  step_queue-Inv id v s quiet inv other = by_queue (GoMap.get s.queues id) refl
    where
      append_nil : (es : List Embed) → es ++ [] ≡ es
      append_nil [] = refl
      append_nil (e ∷ es) = ap (λ xs. e ∷ xs) (append_nil es)

      by_queue :
          (o : Option (State Embed))
          → GoMap.get s.queues id ≡ o
          → Reached
              (or_new (GoMap.get (step_queue size id v o s).queues other))
              (queued_for other (step_queue size id v o s).journal)
      by_queue none h = inv other
      by_queue (some q) h = rw (get-put s.queues id (step size q v) other) (
          branch (λ x. Reached (or_new x) (queued_for other s.journal)) (id == other) _ _
            (λ same.
              subst (λ i. Reached (step size q v) (queued_for i s.journal))
                ((nat_beq_iff id other).0 same)
                (subst (Reached (step size q v))
                  (ap (λ es. queued_for id s.journal ++ es) quiet ∙ append_nil _)
                  (Reached-step q _ v
                    (subst (λ x. Reached (or_new x) (queued_for id s.journal)) h (inv id)))))
            (λ different. inv other))

module _ (d : Discord) (r : Redis) (n : Decimal d) (rest : Rest) (size : Embed → ℕ) where
  queue_embed-Inv :
      (wh : Webhook) (e : Embed) (s : Outgoing r.State)
      → Inv size s
      → Inv size (queue_embed d r n rest size wh e s)
  unfolding Inv queue_embed webhook_client enqueue step
  queue_embed-Inv wh e s inv other =
      let q = or_new (GoMap.get s.queues wh.id) in
      rw
        (get-put s.queues wh.id (enqueue size q e) other, queued_for-queued other wh.id e s.journal)
        (elim (Bool-cases (wh.id == other)) [
          | inl same ↦ rw (same) (
              subst (λ i. Reached size (enqueue size q e) (queued_for i s.journal ++ e ∷ []))
                ((nat_beq_iff wh.id other).0 same)
                (submit_step q (queued_for wh.id s.journal) (inv wh.id)))
          | inr different ↦ rw (different) (inv other)
        ])
    where
      submit_step :
          (q : State Embed) (es : List Embed)
          → Reached size q es
          → Reached size (enqueue size q e) (es ++ e ∷ [])
      submit_step q es h = Reached-step size q es (Event.submit e) h

  execute_now-Inv :
      (wh : Webhook) (data' : SendData) (s : Outgoing r.State)
      → Inv size s
      → Inv size (execute_now d r n rest size wh data' s)
  unfolding Inv execute_now webhook_client
  execute_now-Inv wh data' s inv other =
      rw (queued_for-executed other _ data'.embeds data'.files s.journal) (inv other)

  with_webhook-Inv :
      (event : String) (data' : SendData) (a : Result Webhook) (s : Outgoing r.State)
      → Inv size s
      → Inv size (with_webhook d r n rest size event data' a s)
  with_webhook-Inv event data' (err e) s inv = inv
  with_webhook-Inv event data' (ok wh) s inv = by_data data'.embeds data'.files
    where
      by_data :
          (es : List Embed) (fs : List File)
          → Inv size (queue_or_execute d r n rest size wh event data' es fs s)
      by_data (e ∷ []) [] =
          branch (Inv size) (should_queue event) _ _ (λ v. queue_embed-Inv wh e s inv)
            (λ v. execute_now-Inv wh data' s inv)
      by_data [] fs = execute_now-Inv wh data' s inv
      by_data (e ∷ e' ∷ es) fs = execute_now-Inv wh data' s inv
      by_data (e ∷ []) (f ∷ fs) = execute_now-Inv wh data' s inv

  send_to-Inv :
      (channel : ℕ) (event : String) (data' : SendData) (s : Outgoing r.State)
      → Inv size s
      → Inv size (send_to d r n rest size channel event data' s)
  unfolding send_to Inv
  send_to-Inv channel event data' s inv =
      let (found, redis') = get_webhook d r n rest s.redis channel in
      with_webhook-Inv event data' found (record s { redis = redis' }) inv

  send-Inv :
      (guild : ℕ) (event : String) (data' : SendData) (s : Outgoing r.State)
      → Inv size s
      → Inv size (send d r n rest size guild event data' s)
  unfolding send Inv
  send-Inv guild event data' s inv = by_embeds data'.embeds
    where
      by_embeds : (es : List Embed) → Inv size (send_some d r n rest size guild event data' es s)
      by_embeds [] = inv
      by_embeds (e ∷ es) =
          branch (Inv size) (d.is_valid data'.channel_id) _ _
            (λ v. send_to-Inv data'.channel_id event data' s inv)
            (λ v.
              let s' = record s { db = (Guilds.channels guild s.db).1 } in
              branch (Inv size) (d.is_valid _) _ s' (λ v'. send_to-Inv _ event data' s' inv)
                (λ v'. inv))

  act-Inv :
      (s : Outgoing r.State) (a : SendAction) → Inv size s → Inv size (act d r n rest size s a)
  unfolding act
  act-Inv s (sends guild event data') inv = send-Inv guild event data' s inv
  act-Inv s (expires id t) inv = step_queue-Inv size id (Event.expire t) s refl inv
  act-Inv s (runs id t) inv = step_queue-Inv size id (Event.run t) s refl inv
  act-Inv s (executes id i) inv = step_queue-Inv size id (Event.execute i) s refl inv

  act_all-Inv :
      (s : Outgoing r.State) (as' : List SendAction)
      → Inv size s
      → Inv size (act_all d r n rest size s as')
  unfolding act_all
  act_all-Inv s [] inv = inv
  act_all-Inv s (a ∷ as') inv = act_all-Inv (act d r n rest size s a) as' (act-Inv s a inv)

-- From a start without queues, after any order of calls of `Send`, timers and callbacks, the queue of
-- each webhook keeps the limits on batches, and what `Send` queued for the webhook, and for no other,
-- is in its batches and its queue, each embed once and in order.
pub queues-act_all :
    (d : Discord) (r : Redis) (n : Decimal d) (rest : Rest) (size : Embed → ℕ)
    (s : Outgoing r.State) (as' : List SendAction) (id : ℕ)
    → s.queues ≡ []
    → s.journal ≡ []
    → IsBounded size (or_new (GoMap.get (act_all d r n rest size s as').queues id))
      × IsDelivered
          (or_new (GoMap.get (act_all d r n rest size s as').queues id))
          (queued_for id (act_all d r n rest size s as').journal)
unfolding Inv Reached GoMap.get
queues-act_all d r n rest size s as' id fresh unsent =
    let (vs, h, k) = act_all-Inv d r n rest size s as' start id in
    (
      subst (IsBounded size) (sym h) (batches-IsBounded size vs),
      subst (λ q. IsDelivered q (queued_for id (act_all d r n rest size s as').journal)) (sym h)
          (subst (IsDelivered (run_all size new_queue vs)) k (embeds-IsDelivered size vs)),
    )
  where
    start : Inv size s
    start other = rw (fresh, unsent) (Reached-new size)
