-- ===== src/Bot/Send.antt =====
-- bot/queue.go: `Send`, the queues of all webhooks and their clients. A webhook's queue is the one of
-- `Bot.Queue`; what its timers do are events of their own. `embed_length` is arikawa's `Embed.Length`.
pub mod Queues
use catalogger.Base.{
  string_eq, nat_eq, if◌then◌else◌, contains, Result, ok, err, ℕ, String, Bool, Option, none, some,
  List, [], ◌∷◌, ◌++◌,
}
use catalogger.Base.GoMap
use catalogger.Discord.{Discord, Embed, File, Webhook}
use catalogger.Db.Crypt.{Text}
use catalogger.Db.Tables.{Db}
use catalogger.Db.Channels.{Channels, LogChannels, zero_channels, for}
use catalogger.Db.Guilds as Guilds
use catalogger.Store.Server.{Redis}
use catalogger.Bot.Webhooks.{Decimal, Rest, get_webhook}
use catalogger.Bot.Queue.{State, Event, new_queue, enqueue, step}

pub record SendData : Type 0 where
  pub channel_id : ℕ
  pub embeds : List Embed
  pub files : List File

-- `webhook.FromAPI` of an identifier and a token
pub record Client : Type 0 where
  pub id : ℕ
  pub token : Text

-- What a call of `Send` came to: an embed in the queue of a webhook, or a call of `Execute`.
pub data Outcome : Type 0 where
  queued : ℕ → Embed → Outcome
  executed : Client → List Embed → List File → Outcome

-- `journal` is a history variable, in order.
pub record Outgoing (R : Type 0) : Type 0 where
  pub db : Db
  pub redis : R
  pub queues : GoMap.GoMap ℕ (State Embed)
  pub webhook_clients : GoMap.GoMap ℕ Client
  pub journal : List Outcome

abbrev pub or_new : Option (State Embed) → State Embed
or_new none = new_queue
or_new (some q) = q

abbrev pub or_from_api : Webhook → Option Client → Client
or_from_api wh none = record { id = wh.id; token = wh.token }
or_from_api wh (some c) = c

-- the events that go through a queue
abbrev pub queued_events : List String
queued_events =
    "GuildMemberUpdateEvent" ∷ "MessageDeleteEvent" ∷ "MessageUpdateEvent" ∷ "GuildMemberAddEvent"
    ∷ "GuildMemberRemoveEvent" ∷ "GuildBanAddEvent" ∷ "GuildBanRemoveEvent" ∷ "ChannelCreateEvent"
    ∷ "ChannelDeleteEvent" ∷ "ChannelUpdateEvent" ∷ "InviteCreateEvent" ∷ "InviteDeleteEvent"
    ∷ "ReadyEvent" ∷ "GuildCreateEvent" ∷ "GuildDeleteEvent" ∷ []

unfoldable pub should_queue : String → Bool
should_queue event = contains queued_events event

-- beside an error `DB.Channels` returns a `Channels` that is not filled in
abbrev pub channels_or_zero : Result Channels → LogChannels
channels_or_zero (ok chs) = chs.channels
channels_or_zero (err e) = zero_channels

module _ (d : Discord) (r : Redis) (n : Decimal d) (rest : Rest) (embed_length : Embed → ℕ) where
  -- the client is kept under the identifier of the webhook
  unfoldable pub webhook_client : Webhook → Outgoing r.State → Client × Outgoing r.State
  webhook_client wh s =
      let c = or_from_api wh (GoMap.get s.webhook_clients wh.id) in
      (c, record s { webhook_clients = GoMap.put s.webhook_clients wh.id c })

  unfoldable pub queue_embed : Webhook → Embed → Outgoing r.State → Outgoing r.State
  queue_embed wh e s =
      let (c, s') = webhook_client wh s in
      record s' {
        queues =
            GoMap.put s.queues wh.id (enqueue embed_length (or_new (GoMap.get s.queues wh.id)) e);
        journal = s.journal ++ queued wh.id e ∷ [];
      }

  unfoldable pub execute_now : Webhook → SendData → Outgoing r.State → Outgoing r.State
  execute_now wh data' s =
      let (c, s') = webhook_client wh s in
      record s' { journal = s.journal ++ executed c data'.embeds data'.files ∷ [] }

  -- a single embed without files is queued
  abbrev pub queue_or_execute :
      Webhook → String → SendData → List Embed → List File → Outgoing r.State → Outgoing r.State
  queue_or_execute wh event data' (e ∷ []) [] s =
      if should_queue event then queue_embed wh e s else execute_now wh data' s
  queue_or_execute wh event data' _ _ s = execute_now wh data' s

  abbrev pub with_webhook : String → SendData → Result Webhook → Outgoing r.State → Outgoing r.State
  with_webhook event data' (err e) s = s
  with_webhook event data' (ok wh) s = queue_or_execute wh event data' data'.embeds data'.files s

  unfoldable pub send_to : ℕ → String → SendData → Outgoing r.State → Outgoing r.State
  send_to channel event data' s =
      let (found, redis') = get_webhook d r n rest s.redis channel in
      with_webhook event data' found (record s { redis = redis' })

  -- the channel that is stored for the event
  abbrev pub send_stored : ℕ → String → SendData → Outgoing r.State → Outgoing r.State
  send_stored guild event data' s =
      let (found, db') = Guilds.channels guild s.db in
      let channel = for d (channels_or_zero found) event in
      if d.is_valid channel
      then send_to channel event data' (record s { db = db' })
      else record s { db = db' }

  abbrev pub send_some : ℕ → String → SendData → List Embed → Outgoing r.State → Outgoing r.State
  send_some guild event data' [] s = s
  send_some guild event data' (e ∷ es) s =
      if d.is_valid data'.channel_id
      then send_to data'.channel_id event data' s
      else send_stored guild event data' s

  -- `event` is the event's name
  unfoldable pub send : ℕ → String → SendData → Outgoing r.State → Outgoing r.State
  send guild event data' s = send_some guild event data' data'.embeds s

-- What can happen next: a handler calls `Send`, or a timer of a webhook's queue expires, its callback
-- gets the mutex, or executes a batch.
pub data SendAction : Type 0 where
  sends : ℕ → String → SendData → SendAction
  expires runs executes : ℕ → ℕ → SendAction

-- a webhook without a queue has no timers
abbrev pub step_queue :
    (Embed → ℕ) → {R : Type 0} → ℕ → Event Embed → Option (State Embed) → Outgoing R → Outgoing R
step_queue embed_length id v none s = s
step_queue embed_length id v (some q) s = record s {
  queues = GoMap.put s.queues id (step embed_length q v);
}

module _ (d : Discord) (r : Redis) (n : Decimal d) (rest : Rest) (embed_length : Embed → ℕ) where
  unfoldable pub act : Outgoing r.State → SendAction → Outgoing r.State
  act s (sends guild event data') = send d r n rest embed_length guild event data' s
  act s (expires id t) = step_queue embed_length id (Event.expire t) (GoMap.get s.queues id) s
  act s (runs id t) = step_queue embed_length id (Event.run t) (GoMap.get s.queues id) s
  act s (executes id i) = step_queue embed_length id (Event.execute i) (GoMap.get s.queues id) s

  -- any order of calls of `Send`, timers and callbacks
  unfoldable pub act_all : Outgoing r.State → List SendAction → Outgoing r.State
  act_all s [] = s
  act_all s (a ∷ as') = act_all (act s a) as'
