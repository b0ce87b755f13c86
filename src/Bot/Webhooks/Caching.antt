-- ===== src/Bot/Webhooks/Caching.antt =====
-- The cache of webhooks (bot/webhooks.go).
use catalogger.Base.{
  text_eq_instance, nat_eq, if◌then◌else◌, Bool-cases, branch, ==_refl, contains, ok-inj, Result,
  ok, err, is_empty, ℕ, ◌≡◌, refl, sym, ap, ◌∙◌, inl, inr, true, false, Option, none, some, List,
  [], ◌∷◌, ◌++◌, arith,
}
use catalogger.Bot.Webhooks.{
  keep_webhook, is_own, with_parts, store_webhook, requested_webhook, first_own,
  err_webhook_not_found, created_webhook, cached_webhook, with_reply, with_id, get_webhook, Rest,
  split_2, webhook_key, fetch_cached_webhook_key, stored, Decimal,
}
use catalogger.Discord.{Discord, Webhook}
use catalogger.Db.Crypt.{Text}
use catalogger.Store.Server.{Redis, IsUp}
use catalogger.Store.Redis.{shown}

split-append : (t u : Text) → contains t 58 ≡ false → split_2 (t ++ (58 ∷ u)) ≡ t ∷ u ∷ []
split-append [] u h = refl
split-append (b ∷ bs) u h = ground (arith, split-append bs u)

stored_full : (t u : Text) → is_empty (t ++ (58 ∷ u)) ≡ false
stored_full [] u = refl
stored_full (b ∷ bs) u = refl

module _ (d : Discord) (r : Redis) (n : Decimal d) where
  pub fetch-stored :
      (s : r.State) (channel : ℕ) (wh : Webhook)
      → IsUp r
      → d.is_valid wh.id ≡ true
      → r.string_at s (webhook_key d channel) ≡ some (stored d wh)
      → fetch_cached_webhook_key d r n s channel ≡ (ok (wh.id, wh.token), s)
  unfolding fetch_cached_webhook_key
  fetch-stored s channel wh up valid h =
      ap (with_reply d r n s channel) (up.gets s (webhook_key d channel) ∙ ap (λ o. ok o) h)
      ∙ ap
          (λ b.
            if b
            then (err err_webhook_not_found, s)
            else with_parts d r n s channel (split_2 (stored d wh)))
          (stored_full (shown d wh.id) wh.token)
      ∙ ap (with_parts d r n s channel) (split-append (shown d wh.id) wh.token (n.no_colon wh.id))
      ∙ ap (with_id d r n s channel wh.token) (n.parse-shown wh.id valid)

  -- a webhook that is found leaves the server as it is
  fetch-keeps :
      (s : r.State) (channel : ℕ) (x : ℕ × Text)
      → (fetch_cached_webhook_key d r n s channel).0 ≡ ok x
      → (fetch_cached_webhook_key d r n s channel).1 ≡ s
  unfolding fetch_cached_webhook_key
  fetch-keeps s channel x found = by_reply (r.get s (webhook_key d channel)) found
    where
      by_id :
          (token : Text) (i : Result ℕ)
          → (with_id d r n s channel token i).0 ≡ ok x
          → (with_id d r n s channel token i).1 ≡ s
      by_id token (ok i) h = refl
      by_id token (err e) h = absurd (ground arith)

      by_parts :
          (parts : List Text)
          → (with_parts d r n s channel parts).0 ≡ ok x
          → (with_parts d r n s channel parts).1 ≡ s
      by_parts [] h = absurd (ground arith)
      by_parts (a ∷ []) h = absurd (ground arith)
      by_parts (a ∷ b ∷ []) h = by_id b (n.parse_snowflake a) h
      by_parts (a ∷ b ∷ c ∷ cs) h = absurd (ground arith)

      by_reply :
          (o : Result (Option Text))
          → (with_reply d r n s channel o).0 ≡ ok x
          → (with_reply d r n s channel o).1 ≡ s
      by_reply (err e) h = refl
      by_reply (ok none) h = refl
      by_reply (ok (some t)) h = elim (Bool-cases (is_empty t)) [
        | inl v ↦ rw (v) refl
        | inr v ↦
            let as_parts =
              ap
                (λ b.
                  if b
                  then (err err_webhook_not_found, s)
                  else with_parts d r n s channel (split_2 t))
                v in
            ap (λ p. p.1) as_parts ∙ by_parts (split_2 t) (ap (λ p. p.0) (sym as_parts) ∙ h)
      ]

module _ (d : Discord) (r : Redis) (n : Decimal d) (rest : Rest) (channel : ℕ) (up : IsUp r) where
  -- a webhook that is answered stands in the cache
  Stores : Result Webhook × r.State → Type 0
  Stores p =
      (wh : Webhook) → p.0 ≡ ok wh → r.string_at p.1 (webhook_key d channel) ≡ some (stored d wh)

  keep_webhook-Stores : (s : r.State) (wh : Webhook) → Stores (keep_webhook d r n rest s channel wh)
  unfolding Stores store_webhook
  keep_webhook-Stores s wh wh' h =
      r.string-set s (webhook_key d channel) (stored d wh) (webhook_key d channel) (up.sets s _ _)
      ∙ ap (λ b. if b then some (stored d wh) else r.string_at s (webhook_key d channel))
          (==_refl (webhook_key d channel))
      ∙ ap (λ x. some (stored d x)) (ok-inj wh wh' h)

  created_webhook-Stores :
      (s : r.State) (a : Result Webhook) → Stores (created_webhook d r n rest s channel a)
  unfolding Stores
  created_webhook-Stores s (err e) wh h = absurd (ground arith)
  created_webhook-Stores s (ok wh) wh' h = keep_webhook-Stores s wh wh' h

  first_own-Stores :
      (s : r.State) (whs : List Webhook) → Stores (first_own d r n rest s channel whs)
  first_own-Stores s [] = created_webhook-Stores s (rest.create_webhook channel)
  first_own-Stores s (wh ∷ whs) =
      branch Stores (is_own d r n rest wh) _ _ (λ v. keep_webhook-Stores s wh)
        (λ v. first_own-Stores s whs)

  requested_webhook-Stores :
      (s : r.State) (a : Result (List Webhook)) → Stores (requested_webhook d r n rest s channel a)
  unfolding Stores
  requested_webhook-Stores s (err e) wh h = absurd (ground arith)
  requested_webhook-Stores s (ok whs) wh h = first_own-Stores s whs wh h

-- While Redis executes every command, a webhook is requested of Discord once for a channel: whatever
-- webhook with a valid identifier a lookup returned, the next lookup for the channel returns its identifier
-- and token again, whatever Discord would answer then, and changes nothing.
pub get_webhook-get_webhook :
    (d : Discord) (r : Redis) (n : Decimal d) (before after : Rest) (s : r.State) (channel : ℕ)
    (wh : Webhook)
    → IsUp r
    → d.is_valid wh.id ≡ true
    → (get_webhook d r n before s channel).0 ≡ ok wh
    → get_webhook d r n after (get_webhook d r n before s channel).1 channel ≡ (
      ok (record { id = wh.id; token = wh.token; channel_id = channel; user_id = none }),
      (get_webhook d r n before s channel).1,
    )
unfolding get_webhook Stores
get_webhook-get_webhook d r n before after s channel wh up valid got =
    by_fetch (fetch_cached_webhook_key d r n s channel) refl got
  where
    by_fetch :
        (p : Result (ℕ × Text) × r.State)
        → fetch_cached_webhook_key d r n s channel ≡ p
        → (cached_webhook d r n before channel p).0 ≡ ok wh
        → get_webhook d r n after (cached_webhook d r n before channel p).1 channel ≡ (
          ok (record { id = wh.id; token = wh.token; channel_id = channel; user_id = none }),
          (cached_webhook d r n before channel p).1,
        )
    by_fetch (ok (id, token), s') h got' =
        let same =
          sym (ap (λ p. p.1) h) ∙ fetch-keeps d r n s channel (id, token) (ap (λ p. p.0) h) in
        ap (cached_webhook d r n after channel)
          (ap (λ z. fetch_cached_webhook_key d r n z channel) same ∙ h)
        ∙ ap
            (λ (v : Webhook). (
              ok (record { id = v.id; token = v.token; channel_id = channel; user_id = none }),
              s',
            ))
            (ok-inj (record { id = id; token = token; channel_id = channel; user_id = none }) wh
              got')
    by_fetch (err e, s') h got' = ap (cached_webhook d r n after channel) (
        fetch-stored d r n _ channel wh up valid (
          requested_webhook-Stores d r n before channel up s' (before.channel_webhooks channel) wh
            got'))
