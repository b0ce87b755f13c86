-- ===== src/Logging/Meta/Tests.antt =====
-- Two guilds at the start of the bot, one of which has settings.
use catalogger.Base.{ℕ, ◌≡◌, refl, true, some, [], ◌∷◌}
use catalogger.Base.GoMap
use catalogger.Discord.Sample.{sample}
use catalogger.Db.Sample.{empty_db}
use catalogger.Db.Channels.{Channels, zero_channels}
use catalogger.Logging.Meta.{guild_creates, GuildCreate, MetaWorld, MetaLogs}
use catalogger.Logging.Meta.Settings.{settings, settings-guild_creates}

abbrev world : MetaWorld
world = record {
  discord = sample;
  should_log = true;
  join_leave_log = 60;
  meta_log = 61;
  show = λ i. i ∷ [];
  now = 9;
}

abbrev chosen : Channels
chosen = record {
  channels = record zero_channels { message_delete = 50 };
  redirects = [];
  ignores = record { global_channels = []; global_users = []; per_channel = [] };
}

abbrev started : MetaLogs
started = record { db = record empty_db { guilds = (41, chosen) ∷ [] }; sent = [] }

abbrev of_guild : ℕ → GuildCreate
of_guild id = record { id = id; name = 97 ∷ []; joined = 1; joined_before = true }

settings-guild_creates_example :
    settings (guild_creates world (of_guild 41 ∷ of_guild 42 ∷ []) started).db 41 ≡ some chosen
unfolding GoMap.get
settings-guild_creates_example =
    settings-guild_creates world (of_guild 41 ∷ of_guild 42 ∷ []) started 41 refl
