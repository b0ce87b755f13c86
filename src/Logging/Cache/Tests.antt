-- ===== src/Logging/Cache/Tests.antt =====
-- One round of fetching, for a shard with a guild in each of its sets.
use catalogger.Base.GoMap
use catalogger.Base.{nat_eq, contains, external, ok, err, ◌≡◌, refl, ◌⊎◌, true, false, [], ◌∷◌}
use catalogger.Common.Set.{entry}
use catalogger.Discord.Sample.{sample}
use catalogger.Logging.Cache.{waiting, take_key, fetch_one_guild, Fetches, Answers}
use catalogger.Logging.Cache.Queues.{is_waiting, fetch_one_guild-keeps, fetch_one_guild-loses}

abbrev fetches : Fetches
fetches = record {
  members = (0, (7, entry) ∷ (8, entry) ∷ []) ∷ [];
  invites = (0, (9, entry) ∷ []) ∷ [];
  requested = [];
  stored = [];
  cached = [];
}

abbrev answers : Answers
answers = record {
  send = err (external 1);
  guild_invites = err (external 500);
  set_invites = ok tt;
  forbidden = λ e. false;
}

fetch_one_guild-keeps_example :
    (is_waiting (fetch_one_guild sample 0 1 0 answers fetches).members 0 8 ≡ true)
    ⊎ (contains (fetch_one_guild sample 0 1 0 answers fetches).requested 8 ≡ true)
unfolding catalogger.Base.GoMap.get
fetch_one_guild-keeps_example = fetch_one_guild-keeps sample 0 1 0 answers fetches 0 8 refl refl

-- the guild 9 waits no more, although its invites were not fetched
fetch_one_guild-loses_example :
    is_waiting (fetch_one_guild sample 0 1 0 answers fetches).invites 0 9 ≡ false
unfolding catalogger.Base.GoMap.get take_key waiting
fetch_one_guild-loses_example =
    fetch_one_guild-loses sample 0 1 0 answers fetches 0 9 (external 500) refl refl refl
