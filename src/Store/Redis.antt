-- ===== src/Store/Redis.antt =====
-- store/redis: the store of members, of invites and of the guilds whose members are cached. A method
-- that only reads returns no new state. JSON and the server are parameters (`Store.Server`). Of
-- `return m, json.Unmarshal(raw, &m)` the call comes first, as Go's compiler has it.
use catalogger.Base.{
  nat_eq, ◌==◌, ◌>>=◌, Result, ok, err, bytes, ℕ, Bool, Option, none, some, List, [], ◌∷◌, ◌++◌,
}
pub mod Keys
pub mod Members
pub mod Lookups
mod Tests
use catalogger.Base.GoMap
use catalogger.Discord.{Discord, Member}
use catalogger.Db.Crypt.{Text}
use catalogger.Store.Interface.{err_not_found}
use catalogger.Store.Server.{Redis, Json}

-- the identifiers' text, as bytes
abbrev pub shown : Discord → ℕ → Text
shown d id = bytes (d.show id)

module _ (d : Discord) where
  abbrev pub guild_member_key : ℕ → Text
  guild_member_key guild = bytes "guildMembers:" ++ shown d guild

  abbrev pub invites_key : ℕ → Text
  invites_key guild = bytes "guildInvites:" ++ shown d guild

abbrev pub cached_guilds_key : Text
cached_guilds_key = bytes "cachedGuilds"

-- a value that was not there, or its JSON
module _ {T : Type 0} where
  abbrev pub decode : Json T → Option Text → Result T
  decode json none = err err_not_found
  decode json (some raw) = json.unmarshal raw

module _ (d : Discord) (r : Redis) (json : Json Member) where
  abbrev pub set_marshaled : r.State → ℕ → ℕ → Result Text → Result (Unit {0}) × r.State
  set_marshaled s guild user (err e) = (err e, s)
  set_marshaled s guild user (ok b) = r.hset s (guild_member_key d guild) ((shown d user, b) ∷ [])

  unfoldable pub set_member : r.State → ℕ → Member → Result (Unit {0}) × r.State
  set_member s guild m = set_marshaled s guild m.user.id (json.marshal m)

  -- the arguments of `HSET` after the key, in pairs
  abbrev pub member_args : List Member → Result (List (Text × Text))
  member_args [] = ok []
  member_args (m ∷ ms) = do
    b ← json.marshal m
    args ← member_args ms
    ok ((shown d m.user.id, b) ∷ args)

  abbrev pub set_args : r.State → ℕ → Result (List (Text × Text)) → Result (Unit {0}) × r.State
  set_args s guild (err e) = (err e, s)
  set_args s guild (ok args) = r.hset s (guild_member_key d guild) args

  unfoldable pub set_members : r.State → ℕ → List Member → Result (Unit {0}) × r.State
  set_members s guild ms = set_args s guild (member_args ms)

  unfoldable pub delete_member : r.State → ℕ → ℕ → Result (Unit {0}) × r.State
  delete_member s guild user = r.hdel s (guild_member_key d guild) (shown d user)

  unfoldable pub member : r.State → ℕ → ℕ → Result Member
  member s guild user = do raw ← r.hget s (guild_member_key d guild) (shown d user); decode json raw

  -- the loop of `Members` over the map
  abbrev pub decode_all : GoMap.GoMap Text Text → Result (List Member)
  decode_all [] = ok []
  decode_all ((k, src) ∷ mmap) = do m ← json.unmarshal src; ms ← decode_all mmap; ok (m ∷ ms)

  unfoldable pub members : r.State → ℕ → Result (List Member)
  members s guild = do mmap ← r.hgetall s (guild_member_key d guild); decode_all mmap

-- `I` is arikawa's `Invite`.
module _ (d : Discord) (r : Redis) {I : Type 0} (json : Json (List I)) where
  unfoldable pub invites : r.State → ℕ → Result (List I)
  invites s guild = do raw ← r.get s (invites_key d guild); decode json raw

  abbrev pub set_invites_text : r.State → ℕ → Result Text → Result (Unit {0}) × r.State
  set_invites_text s guild (err e) = (err e, s)
  set_invites_text s guild (ok b) = r.set s (invites_key d guild) b

  unfoldable pub set_invites : r.State → ℕ → List I → Result (Unit {0}) × r.State
  set_invites s guild is = set_invites_text s guild (json.marshal is)

module _ (d : Discord) (r : Redis) where
  unfoldable pub is_guild_cached : r.State → ℕ → Result Bool
  is_guild_cached s guild = do
    resp ← r.sismember s cached_guilds_key (shown d guild)
    ok (resp == 1)

  unfoldable pub mark_guild_cached : r.State → ℕ → Result (Unit {0}) × r.State
  mark_guild_cached s guild = r.sadd s cached_guilds_key (shown d guild)

  unfoldable pub member_exists : r.State → ℕ → ℕ → Result Bool
  member_exists s guild user = do
    i ← r.hexists s (guild_member_key d guild) (shown d user)
    ok (i == 1)
