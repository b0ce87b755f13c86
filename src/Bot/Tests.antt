-- ===== src/Bot/Tests.antt =====
-- The counters of three calls, the names of an endpoint, and a webhook and its queue under a few calls.
use catalogger.Bot.Webhooks.{fetch_cached_webhook_key, get_webhook}
use catalogger.Bot.Webhooks.Caching.{get_webhook-get_webhook}
use catalogger.Bot.Send.{or_new, act_all, Outgoing, SendAction}
use catalogger.Bot.Send.Queues.{queued_for, queues-act_all}
use catalogger.Bot.Queue.Bounds.{IsBounded}
use catalogger.Bot.Queue.Delivery.{IsDelivered}
use catalogger.Bot.Sample.{
  sample_decimal, sample_rest, no_answer, empty_redis, idle, note, to_channel,
}
use catalogger.Store.Sample.{sample_IsUp, sample_redis, Kept}
use catalogger.Discord.{Webhook, Embed}
use catalogger.Discord.Sample.{sample}
use catalogger.Base.GoMap
use catalogger.Base.{
  string_eq, nat_eq, ok, bytes, ◌+◌, ◌%◌, ◌<◌, ◌≡◌, refl, none, some, List, [], ◌∷◌, arith,
}
use catalogger.Bot.Metrics.{Client, Call, calls, new_client}
use catalogger.Bot.Metrics.Conservation.{accounted, events_of, calls-accounted}
use catalogger.Db.Crypt.{Text}
use catalogger.Bot.Metrics.Paths.{
  match_all, replace_from, normalize_path, endpoint_metrics_name, logging_name,
}
use catalogger.Bot.Metrics.Paths.Webhooks.{endpoint_metrics_name-webhook_path}
use catalogger.Bot.Metrics.Paths.Cardinality.{HasNoSnowflake, HasNoSnowflake-endpoint_metrics_name}

abbrev three_calls : List Call
three_calls = Call.register_event "READY" ∷ Call.submit_inner ∷ Call.register_event "READY" ∷ []

calls-accounted_example :
    (d : Client) × (calls three_calls (some new_client) ≡ some d)
    × (accounted "READY" d % 4294967296
        ≡ (accounted "READY" new_client + events_of "READY" three_calls) % 4294967296)
calls-accounted_example = calls-accounted three_calls "READY" new_client

abbrev own_webhook : Webhook
own_webhook = record { id = 5; token = 58 ∷ 2 ∷ []; channel_id = 50; user_id = some 9 }

get_webhook-get_webhook_example :
    get_webhook sample sample_redis sample_decimal no_answer
      (get_webhook sample sample_redis sample_decimal sample_rest empty_redis 50).1
      50
    ≡ (
      ok (record own_webhook { user_id = none }),
      (get_webhook sample sample_redis sample_decimal sample_rest empty_redis 50).1,
    )
unfolding get_webhook fetch_cached_webhook_key GoMap.get
get_webhook-get_webhook_example =
    get_webhook-get_webhook sample sample_redis sample_decimal sample_rest no_answer empty_redis 50
      own_webhook sample_IsUp refl refl

abbrev busy : List SendAction
busy =
    SendAction.sends 41 "MessageDeleteEvent" (to_channel 50 (note 1 ∷ []))
    ∷ SendAction.sends 41 "MessageDeleteEvent" (to_channel 50 (note 2 ∷ []))
    ∷ SendAction.expires 5 0
    ∷ SendAction.sends 41 "GuildUpdateEvent" (to_channel 50 (note 3 ∷ note 4 ∷ []))
    ∷ SendAction.runs 5 0
    ∷ SendAction.executes 5 0
    ∷ []

abbrev after_busy : Outgoing Kept
after_busy = act_all sample sample_redis sample_decimal sample_rest (λ e. 10) idle busy

queues-act_all_example :
    IsBounded (λ (e : Embed). 10) (or_new (GoMap.get after_busy.queues 5))
    × IsDelivered (or_new (GoMap.get after_busy.queues 5)) (queued_for 5 after_busy.journal)
queues-act_all_example =
    queues-act_all sample sample_redis sample_decimal sample_rest (λ e. 10) idle busy 5 refl refl

-- what a request is counted and logged as
abbrev sample_path : Text
sample_path = bytes "/api/v9/gateway/123456789012345678/webhooks/42/secret"

counted_example :
    endpoint_metrics_name (bytes "GET") sample_path
    ≡ bytes "GET /gateway/{snowflake}/webhooks/{webhook_id}/{webhook_token}"
unfolding endpoint_metrics_name normalize_path replace_from match_all
counted_example = refl

logged_example :
    logging_name sample_path ≡ bytes "/api/v9/gateway/123456789012345678/webhooks/42/:token"
unfolding logging_name replace_from match_all
logged_example = refl

HasNoSnowflake-endpoint_metrics_name_example :
    HasNoSnowflake (endpoint_metrics_name (bytes "GET") sample_path)
unfolding HasNoSnowflake
HasNoSnowflake-endpoint_metrics_name_example =
    HasNoSnowflake-endpoint_metrics_name (bytes "GET") sample_path
      (let p : 0 < 15 = omega arith in (p, (p, (p, tt))))

endpoint_metrics_name-webhook_path_example :
    endpoint_metrics_name (bytes "POST") (bytes "/api/v10/webhooks/42/secret")
    ≡ bytes "POST /webhooks/{webhook_id}/{webhook_token}"
endpoint_metrics_name-webhook_path_example =
    endpoint_metrics_name-webhook_path (bytes "POST") (bytes "10") (bytes "42") (bytes "secret")
      refl refl refl
