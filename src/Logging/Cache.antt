-- ===== src/Logging/Cache.antt =====
-- logging/cache: the guilds whose members and invites are still to be fetched, one set of them for each
-- shard (module.go, guild_create.go), and the fetching of one of them (fetch_queue.go). What the caches
-- and Discord answer are arguments; `status` tells an HTTP error's status.
use catalogger.Base.GoMap
use catalogger.Base.{
  nat_eq, if◌then◌else◌, ◌==◌, count, Error, Result, ok, err, ℕ, zero, suc, ◌+◌, Bool, false,
  Option, none, some, List, [], ◌∷◌,
}
use catalogger.Common.Set.{Entry, entry}
use catalogger.Discord.{Discord}
pub mod Queues
mod Tests

-- `map[int]map[discord.GuildID]struct{}`
abbrev pub Shards : Type 0
Shards = GoMap.GoMap ℕ (GoMap.GoMap ℕ Entry)

pub record Fetches : Type 0 where
  pub members : Shards
  pub invites : Shards
  -- the requests for members that were sent, and the guilds whose invites were stored
  pub requested : List ℕ
  pub stored : List ℕ
  -- the guilds marked as cached
  pub cached : List ℕ

-- the inner map of a shard, which is nil and reads as empty if it is missing
abbrev pub or_nil : Option (GoMap.GoMap ℕ Entry) → GoMap.GoMap ℕ Entry
or_nil none = []
or_nil (some m) = m

unfoldable pub waiting : Shards → ℕ → List ℕ
waiting s shard = GoMap.keys (or_nil (GoMap.get s shard))

-- `addToMemberFetchQueue` and `addToInviteFetchQueue`
unfoldable pub add_to_fetch_queue : Shards → ℕ → ℕ → Shards
add_to_fetch_queue s shard guild =
    GoMap.put s shard (GoMap.put (or_nil (GoMap.get s shard)) guild entry)

-- The first key that `range` yields is any key: `choice` says which. It is 0 where there is none.
abbrev pub some_key : List ℕ → ℕ → ℕ
some_key [] n = 0
some_key (k ∷ ks) zero = k
some_key (k ∷ ks) (suc n) = elim ks [ [] ↦ k | _ ∷ _ ↦ some_key ks n ]

abbrev pub drop_key : Shards → ℕ → ℕ → Option (GoMap.GoMap ℕ Entry) → Shards
drop_key s shard k none = s
drop_key s shard k (some m) = GoMap.put s shard (GoMap.del m k)

-- an id from the shard's map, which loses it
unfoldable pub take_key : Shards → ℕ → ℕ → ℕ × Shards
take_key s shard choice =
    let k = some_key (waiting s shard) choice in (k, drop_key s shard k (GoMap.get s shard))

-- What the gateway, the API and the caches answer to one round.
pub record Answers : Type 0 where
  pub send : Result (Unit {0})
  pub guild_invites : Result (Unit {0})
  pub set_invites : Result (Unit {0})
  -- `err.(*httputil.HTTPError)` with status 403 or 401
  pub forbidden : Error → Bool

abbrev pub request_members : ℕ → ℕ → Result (Unit {0}) → Fetches → Fetches
request_members shard guild (ok done) st = record st { requested = guild ∷ st.requested }
request_members shard guild (err e) st = record st {
  members = add_to_fetch_queue st.members shard guild;
}

abbrev pub store_invites : ℕ → Result (Unit {0}) → Fetches → Fetches
store_invites guild (ok done) st = record st { stored = guild ∷ st.stored }
store_invites guild (err e) st = st

-- On an error the code adds the guild of the member request, not the one of the invites.
abbrev pub fetch_invites : ℕ → ℕ → ℕ → Answers → Result (Unit {0}) → Fetches → Fetches
fetch_invites shard member_guild invite_guild a (ok done) st =
    store_invites invite_guild a.set_invites st
fetch_invites shard member_guild invite_guild a (err e) st =
    if a.forbidden e
    then st
    else record st { invites = add_to_fetch_queue st.invites shard member_guild }

module _ (d : Discord) where
  unfoldable pub fetch_one_guild : ℕ → ℕ → ℕ → Answers → Fetches → Fetches
  fetch_one_guild shard choice choice' a st =
      let (member_guild, members') = take_key st.members shard choice in
      let (invite_guild, invites') = take_key st.invites shard choice' in
      let s = record st { members = members'; invites = invites' } in
      let t = if d.is_valid member_guild then request_members shard member_guild a.send s else s in
      if d.is_valid invite_guild
      then fetch_invites shard member_guild invite_guild a a.guild_invites t
      else t

-- The answers of the cabinet to `guildCreate`, the last one of `IsGuildCached`.
unfoldable pub guild_create :
    ℕ
    → ℕ
    → Result (Unit {0})
    → Result (Unit {0})
    → Result (Unit {0})
    → Result Bool
    → Fetches
    → Fetches
guild_create shard guild (ok a) (ok b) (ok c) (ok false) st = record st {
  members = add_to_fetch_queue st.members shard guild;
  invites = add_to_fetch_queue st.invites shard guild;
}
guild_create shard guild _ _ _ _ st = st

abbrev pub mark_cached : ℕ → Result (Unit {0}) → Fetches → Fetches
mark_cached guild (ok done) st = record st { cached = guild ∷ st.cached }
mark_cached guild (err e) st = st

-- `index` and `count` are 32-bit in the library; the code compares `index` with `count - 1`, and a chunk
-- has a count of one or more.
unfoldable pub guild_members_chunk :
    ℕ → ℕ → ℕ → Result (Unit {0}) → Result (Unit {0}) → Fetches → Fetches
guild_members_chunk guild index count (err e) marked st = st
guild_members_chunk guild index count (ok done) marked st =
    if index + 1 == count then mark_cached guild marked st else st
