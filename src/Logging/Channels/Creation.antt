-- ===== src/Logging/Channels/Creation.antt =====
-- The handler of created channels (logging/channels/channel_create.go) over all histories of events.
use catalogger.Logging.Channels.{
  overrides, cut_fields, log_created, channel_create, channel_creates, ChannelWorld, ChannelLogs,
  ChannelCreate,
}
use mathlib.Core.List.{append_assoc, append-nil}
use catalogger.Base.{
  nat_eq, ltb, if◌then◌else◌, Bool-cases, branch, length, All, length-take, ◌==◌, Result, ok, ℕ,
  ◌≤◌, ◌≡◌, refl, sym, ap, ◌∙◌, subst, inl, inr, Bool, true, false, List, [], ◌∷◌, ◌++◌, map, arith,
}
use catalogger.Discord.{Channel, Embed, EmbedField}
use catalogger.Store.Interface.{RoleStore}
use catalogger.Store.Memory.Channels.{channel, set_channel, channel_key}
use catalogger.Store.Memory.Index.Laws.{find-set_one}

-- an independent description: the channel created last with this identifier, or what was known
abbrev pub last_created : List ChannelCreate → ℕ → Result Channel → Result Channel
last_created [] id before = before
last_created (ev ∷ evs) id before =
    last_created evs id (if ev.channel.id == id then ok ev.channel else before)

-- the guild of each event, the last first
abbrev pub guilds_of : List ChannelCreate → List ℕ
guilds_of [] = []
guilds_of (ev ∷ evs) = guilds_of evs ++ ev.guild_id ∷ []

-- a log message within Discord's limit on fields
abbrev pub IsShort : ℕ × Embed → Type 0
IsShort x = length x.1.fields ≤ 25

module _ (S : RoleStore) (w : ChannelWorld) where
  cut_fields-short : (fields : List EmbedField) → length (cut_fields S w fields) ≤ 25
  cut_fields-short fields =
      branch (λ fs. length fs ≤ 25) (ltb 24 (length fields)) _ fields
        (λ v. omega (arith, length-take 24 fields)) (λ v. ground arith)

  log_created-channels :
      (ev : ChannelCreate) (st : ChannelLogs S) → (log_created S w ev st).channels ≡ st.channels
  unfolding log_created
  log_created-channels ev st =
      branch (λ (x : ChannelLogs S). x.channels ≡ st.channels) w.should_log _ st (λ v. refl)
        (λ v. refl)

  channel-channel_create :
      (ev : ChannelCreate) (st : ChannelLogs S) (id : ℕ)
      → channel (channel_create S w ev st).channels id
        ≡ (if ev.channel.id == id then ok ev.channel else channel st.channels id)
  unfolding channel channel_create set_channel
  channel-channel_create ev st id =
      find-set_one channel_key (log_created S w ev st).channels ev.guild_id ev.channel id
      ∙ ap (λ s. if ev.channel.id == id then ok ev.channel else channel s id)
          (log_created-channels ev st)

  pub channel-channel_creates :
      (evs : List ChannelCreate) (st : ChannelLogs S) (id : ℕ)
      → channel (channel_creates S w evs st).channels id
        ≡ last_created evs id (channel st.channels id)
  unfolding channel_creates
  channel-channel_creates [] st id = refl
  channel-channel_creates (ev ∷ evs) st id =
      channel-channel_creates evs (channel_create S w ev st) id
      ∙ ap (last_created evs id) (channel-channel_create ev st id)

  -- what one event sends
  sent-channel_create :
      (ev : ChannelCreate) (st : ChannelLogs S)
      → All IsShort st.sent
      → (map (λ x. x.0) (channel_create S w ev st).sent
          ≡ (if w.should_log then ev.guild_id ∷ [] else []) ++ map (λ x. x.0) st.sent)
        × All IsShort (channel_create S w ev st).sent
  unfolding channel_create log_created
  sent-channel_create ev st short = elim (Bool-cases w.should_log) [
    | inl on ↦ simp (on) (
      refl,
      (cut_fields-short (overrides S w ev.guild_id st.roles ev.overwrites st.users).0, short),
    )
    | inr off ↦ simp (off) (refl, short)
  ]

  sent-channel_creates :
      (evs : List ChannelCreate) (st : ChannelLogs S)
      → All IsShort st.sent
      → (map (λ x. x.0) (channel_creates S w evs st).sent
          ≡ (if w.should_log then guilds_of evs else []) ++ map (λ x. x.0) st.sent)
        × All IsShort (channel_creates S w evs st).sent
  unfolding channel_creates
  sent-channel_creates [] st short = (
    branch (λ l. map (λ x. x.0) st.sent ≡ l ++ map (λ x. x.0) st.sent) w.should_log [] []
        (λ v. refl) (λ v. refl),
    short,
  )
  sent-channel_creates (ev ∷ evs) st short =
      let (now, short') = sent-channel_create ev st short in
      let (later, short'') = sent-channel_creates evs (channel_create S w ev st) short' in
      (
        later
            ∙ ap (λ l. (if w.should_log then guilds_of evs else []) ++ l) now
            ∙ joined w.should_log,
        short'',
      )
    where
      joined :
          (b : Bool)
          → (if b then guilds_of evs else [])
              ++ ((if b then ev.guild_id ∷ [] else []) ++ map (λ x. x.0) st.sent)
            ≡ (if b then guilds_of evs ++ ev.guild_id ∷ [] else []) ++ map (λ x. x.0) st.sent
      joined true = sym (append_assoc (guilds_of evs) (ev.guild_id ∷ []) (map (λ x. x.0) st.sent))
      joined false = refl

-- After any history of created channels, the store returns for each identifier the channel that was
-- created last with it, and otherwise what it returned before, whether or not the events are logged.
-- While logging is on each event sends one log message to its guild, in the events' order and with
-- no more fields than Discord's 25, whatever the overwrites of the channel are; while it is off,
-- none.
pub channel_creates_complete :
    (S : RoleStore) (w : ChannelWorld) (evs : List ChannelCreate) (st : ChannelLogs S) (id : ℕ)
    → st.sent ≡ []
    → (channel (channel_creates S w evs st).channels id
        ≡ last_created evs id (channel st.channels id))
      × (map (λ x. x.0) (channel_creates S w evs st).sent
          ≡ (if w.should_log then guilds_of evs else []))
      × All IsShort (channel_creates S w evs st).sent
channel_creates_complete S w evs st id unsent =
    let (guilds, short) = sent-channel_creates S w evs st (subst (All IsShort) (sym unsent) tt) in
    (
      channel-channel_creates S w evs st id,
      guilds
          ∙ ap (λ l. (if w.should_log then guilds_of evs else []) ++ map (λ x. x.0) l) unsent
          ∙ append-nil (if w.should_log then guilds_of evs else []),
      short,
    )
