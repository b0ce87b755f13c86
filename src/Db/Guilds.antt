-- ===== src/Db/Guilds.antt =====
-- db/guild.go and the statements of db/channels.go, on the table `guilds`.
use catalogger.Base.GoMap
use catalogger.Base.{
  nat_eq, Result, sentinel, ok, err, ℕ, Bool, true, false, Option, none, some, [],
}
use catalogger.Db.Channels.{Channels, zero_channels}
use catalogger.Db.Tables.{Action, ◌>>=◌, lift, wrapping, statement, Db}

-- what `Scan` makes of the row: a guild without one is an error
abbrev pub scan : Option Channels → Result Channels
scan none = err (sentinel "no rows in result set")
scan (some chs) = ok chs

unfoldable pub channels : ℕ → Action Channels
channels guild =
    wrapping "getting channels"
      (do row ← statement (λ db. (GoMap.get db.guilds guild, db)); lift (scan row))

-- An update of a guild without a row changes nothing.
update_guild : Option Channels → ℕ → Channels → Db → Db
update_guild none guild chs db = db
update_guild (some old) guild chs db = record db { guilds = GoMap.put db.guilds guild chs }

unfoldable pub set_channels : ℕ → Channels → Action (Unit {0})
unfolding update_guild
set_channels guild chs =
    wrapping "executing sql"
      (statement (λ db. (tt, update_guild (GoMap.get db.guilds guild) guild chs db)))

-- the row with the column defaults of the schema
abbrev pub new_guild : Channels
new_guild = record {
  channels = zero_channels;
  redirects = [];
  ignores = record { global_channels = []; global_users = []; per_channel = [] };
}

-- `ON CONFLICT DO NOTHING`; the result is whether the row was there
unfoldable pub insert_guild : Option Channels → ℕ → Db → Bool × Db
insert_guild none guild db = (false, record db { guilds = GoMap.put db.guilds guild new_guild })
insert_guild (some old) guild db = (true, db)

unfoldable pub create_guild : ℕ → Action Bool
unfolding insert_guild
create_guild guild =
    wrapping "executing query" (statement (λ db. insert_guild (GoMap.get db.guilds guild) guild db))
