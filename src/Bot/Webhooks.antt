-- ===== src/Bot/Webhooks.antt =====
-- bot/webhooks.go: the webhook of a log channel, from the cache in Redis or from Discord. The calls of
-- Discord's API and the writing and reading of identifiers are parameters.
pub mod Caching
use catalogger.Base.{
  nat_eq, if◌then◌else◌, ◌==◌, contains, wrap, Error, Result, sentinel, wrapped, appended, ok, err,
  bytes, is_empty, ℕ, ◌≡◌, Bool, true, false, not, Option, none, some, List, [], ◌∷◌, ◌++◌,
}
use catalogger.Base.GoMap
use catalogger.Discord.{Discord, Webhook}
use catalogger.Db.Crypt.{Text}
use catalogger.Store.Server.{Redis}
use catalogger.Store.Redis.{shown}

-- `ParseSnowflake`, which reads the decimal form of a valid identifier; an invalid one has no form
pub record Decimal (d : Discord) : Type 0 where
  pub parse_snowflake : Text → Result ℕ
  pub parse-shown : (i : ℕ) → d.is_valid i ≡ true → parse_snowflake (shown d i) ≡ ok i
  -- a decimal form has digits only, so no colon (58)
  pub no_colon : (i : ℕ) → contains (shown d i) 58 ≡ false

-- the two requests, by channel, and `bot.user.ID`
pub record Rest : Type 0 where
  pub channel_webhooks : ℕ → Result (List Webhook)
  pub create_webhook : ℕ → Result Webhook
  pub me : ℕ

abbrev pub err_webhook_not_found : Error
err_webhook_not_found = sentinel "webhook not found"

abbrev pub err_webhook_invalid : Error
err_webhook_invalid = sentinel "webhook invalid"

-- `strings.SplitN(s, ":", 2)`
abbrev pub cons_first : ℕ → List Text → List Text
cons_first b [] = []
cons_first b (part ∷ parts) = (b ∷ part) ∷ parts

abbrev pub split_2 : Text → List Text
split_2 [] = [] ∷ []
split_2 (b ∷ bs) = let rest = split_2 bs in if b == 58 then [] ∷ bs ∷ [] else cons_first b rest

-- `errors.Append(err, errWebhookInvalid)`
abbrev pub append_invalid : Result (Unit {0}) → Error
append_invalid (ok u) = err_webhook_invalid
append_invalid (err e) = appended e err_webhook_invalid

abbrev pub webhook_key : Discord → ℕ → Text
webhook_key d channel = bytes "webhook:" ++ shown d channel

module _ (d : Discord) (r : Redis) where
  abbrev pub invalid : r.State → ℕ → Result (ℕ × Text) × r.State
  invalid s channel =
      let (done, s') = r.del s (webhook_key d channel) in (err (append_invalid done), s')

module _ (d : Discord) (r : Redis) (n : Decimal d) where
  abbrev pub with_id : r.State → ℕ → Text → Result ℕ → Result (ℕ × Text) × r.State
  with_id s channel token (err e) = invalid d r s channel
  with_id s channel token (ok id) = (ok (id, token), s)

  abbrev pub with_parts : r.State → ℕ → List Text → Result (ℕ × Text) × r.State
  with_parts s channel (id ∷ token ∷ []) = with_id s channel token (n.parse_snowflake id)
  with_parts s channel _ = invalid d r s channel

  abbrev pub with_reply : r.State → ℕ → Result (Option Text) → Result (ℕ × Text) × r.State
  with_reply s channel (err e) = (err e, s)
  with_reply s channel (ok none) = (err err_webhook_not_found, s)
  with_reply s channel (ok (some t)) =
      if is_empty t then (err err_webhook_not_found, s) else with_parts s channel (split_2 t)

  unfoldable pub fetch_cached_webhook_key : r.State → ℕ → Result (ℕ × Text) × r.State
  fetch_cached_webhook_key s channel = with_reply s channel (r.get s (webhook_key d channel))

abbrev pub stored : Discord → Webhook → Text
stored d wh = shown d wh.id ++ (58 ∷ wh.token)

module _ (d : Discord) (r : Redis) where
  unfoldable pub store_webhook : r.State → ℕ → Webhook → Result (Unit {0}) × r.State
  store_webhook s channel wh =
      let (done, s') = r.set s (webhook_key d channel) (stored d wh) in
      (wrap "storing webhook" done, s')

module _ (d : Discord) (r : Redis) (n : Decimal d) (rest : Rest) where
  -- an error of the cache is only logged
  abbrev pub keep_webhook : r.State → ℕ → Webhook → Result Webhook × r.State
  keep_webhook s channel wh = (ok wh, (store_webhook d r s channel wh).1)

  abbrev pub is_own : Webhook → Bool
  is_own wh = elim wh.user_id [ none ↦ false | some u ↦ u == rest.me ]

  abbrev pub created_webhook : r.State → ℕ → Result Webhook → Result Webhook × r.State
  created_webhook s channel (err e) = (err (wrapped "creating new webhook" e), s)
  created_webhook s channel (ok wh) = keep_webhook s channel wh

  -- the loop over the webhooks of the channel, and what follows it
  abbrev pub first_own : r.State → ℕ → List Webhook → Result Webhook × r.State
  first_own s channel [] = created_webhook s channel (rest.create_webhook channel)
  first_own s channel (wh ∷ whs) =
      let others = first_own s channel whs in
      if is_own wh then keep_webhook s channel wh else others

  abbrev pub requested_webhook : r.State → ℕ → Result (List Webhook) → Result Webhook × r.State
  requested_webhook s channel (err e) = (err (wrapped "getting webhooks" e), s)
  requested_webhook s channel (ok whs) = first_own s channel whs

  abbrev pub cached_webhook : ℕ → Result (ℕ × Text) × r.State → Result Webhook × r.State
  cached_webhook channel (ok (id, token), s) =
      (ok (record { id = id; token = token; channel_id = channel; user_id = none }), s)
  cached_webhook channel (err e, s) = requested_webhook s channel (rest.channel_webhooks channel)

  unfoldable pub get_webhook : r.State → ℕ → Result Webhook × r.State
  get_webhook s channel = cached_webhook channel (fetch_cached_webhook_key d r n s channel)
