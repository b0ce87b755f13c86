-- ===== src/Logging/Invites/Knowledge.antt =====
-- What the handlers of invites (logging/invites) know and send, over all histories of events.
use catalogger.Base.{
  text_eq_instance, nat_eq, if◌then◌else◌, ◌==◌, is_ok, Result, ok, err, ℕ, ◌≡◌, Bool, true, ◌&&◌,
  Option, none, some, List, [], ◌∷◌, ◌++◌,
}
use catalogger.Logging.Invites.{
  invite_created_embed, invite_deleted_embed, send_invite, log_cached, InviteWorld, InviteLogs,
  InviteEvent, created, deleted,
}
use catalogger.Discord.{same_id, Invite, Embed}
use catalogger.Db.Crypt.{Text}
use catalogger.Store.Server.{Redis, IsUp}
use catalogger.Store.Redis.{invites}

-- an independent description: the list that Discord answered last for each guild, where two invalid
-- identifiers count as one guild
abbrev pub Known : Type 0
Known = ℕ → Result (List Invite)

-- the invites of a list that have this code, and the first of some
abbrev pub with_code : Text → List Invite → List Invite
with_code code [] = []
with_code code (i ∷ is) = let rest = with_code code is in if i.code == code then i ∷ rest else rest

abbrev pub first : List Invite → Option Invite
first [] = none
first (i ∷ is) = some i

module _ (w : InviteWorld) where
  abbrev pub answered : ℕ → Result (List Invite) → Known → Known
  answered guild (err e) known h = known h
  answered guild (ok inv) known h = if same_id w.discord guild h then ok inv else known h

  abbrev pub learned : InviteEvent → Known → Known
  learned (created guild inv age answer) known = answered guild answer known
  learned (deleted guild channel code answer) known = answered guild answer known

module _ (w : InviteWorld) where
  abbrev pub found_log : ℕ → ℕ → Text → Option Invite → List (ℕ × Embed)
  found_log guild channel code none = []
  found_log guild channel code (some inv) = (guild, invite_deleted_embed w channel code inv) ∷ []

  abbrev pub known_log : ℕ → ℕ → Text → Result (List Invite) → List (ℕ × Embed)
  known_log guild channel code (err e) = []
  known_log guild channel code (ok invs) =
      found_log guild channel code (first (with_code code invs))

  abbrev pub event_log : InviteEvent → Known → List (ℕ × Embed)
  event_log (created guild inv age answer) known = (guild, invite_created_embed w inv age) ∷ []
  event_log (deleted guild channel code answer) known = known_log guild channel code (known guild)

  -- the last first
  abbrev pub all_logs : List InviteEvent → Known → List (ℕ × Embed)
  all_logs [] known = []
  all_logs (v ∷ vs) known =
      all_logs vs (learned w v known) ++ (if w.should_log then event_log v known else [])

module _ (w : InviteWorld) where
  abbrev pub answer_marshals : Result (List Invite) → Bool
  answer_marshals (err e) = true
  answer_marshals (ok inv) = is_ok (w.json.marshal inv)

  abbrev pub event_marshals : InviteEvent → Bool
  event_marshals (created guild inv age answer) = answer_marshals answer
  event_marshals (deleted guild channel code answer) = answer_marshals answer

  -- JSON can be made of the lists that Discord answers
  abbrev pub all_marshal : List InviteEvent → Bool
  all_marshal [] = true
  all_marshal (v ∷ vs) = event_marshals v && all_marshal vs

module _ (w : InviteWorld) (r : Redis) (up : IsUp r) where
  abbrev pub cached : InviteLogs r.State → Known
  cached st guild = invites w.discord r w.json st.store guild

  -- what the handler sends before the deferred call, which keeps the store
  before_update : InviteEvent → InviteLogs r.State → InviteLogs r.State
  before_update (created guild inv age answer) st =
      if w.should_log then send_invite w r guild (invite_created_embed w inv age) st else st
  before_update (deleted guild channel code answer) st =
      if w.should_log
      then log_cached w r guild channel code (invites w.discord r w.json st.store guild) st
      else st

  -- one event, seen from the store that the description knows
  Described : InviteEvent → Known → InviteLogs r.State → InviteLogs r.State → Type 0
  Described v known st st' =
      (st'.sent ≡ (if w.should_log then event_log w v known else []) ++ st.sent)
      × (st'.store ≡ st.store)
