-- ===== src/Logging/Meta.antt =====
-- logging/meta: the handler of a guild that the bot is in, which the gateway sends when the bot joins
-- it and at every start (guild_create.go), and that of a shard that is ready (ready.go). What is only written to the program's own log is left out.
pub mod Settings
mod Tests
use catalogger.Base.{
  if◌then◌else◌, Result, ok, err, bytes, ℕ, ◌/◌, Bool, false, ◌&&◌, none, List, [], ◌∷◌, ◌++◌,
}
use catalogger.Discord.{Discord, Embed}
use catalogger.Db.Crypt.{Text}
use catalogger.Db.Tables.{Db}
use catalogger.Db.Guilds as Guilds
use catalogger.Common.Colours.{colour_green, colour_purple}
use catalogger.Logging.State.{Sent}

-- The event, and whether the bot joined more than a minute before now.
pub record GuildCreate : Type 0 where
  pub id : ℕ
  pub name : Text
  pub joined : ℕ
  pub joined_before : Bool

pub record MetaWorld : Type 0 where
  pub discord : Discord
  pub should_log : Bool
  -- `bot.Config.Bot.JoinLeaveLog`
  pub join_leave_log : ℕ
  -- `bot.Config.Bot.MetaLog`
  pub meta_log : ℕ
  pub show : ℕ → Text
  pub now : ℕ

pub record MetaLogs : Type 0 where
  pub db : Db
  pub sent : List Sent

-- the first result of `CreateGuild`, which is false beside an error
abbrev pub existed : Result Bool → Bool
existed (ok b) = b
existed (err e) = false

module _ (w : MetaWorld) where
  abbrev pub joined_embed : GuildCreate → Embed
  joined_embed ev = record {
    title = bytes "Joined guild";
    description = bytes "Joined guild **" ++ ev.name ++ bytes "**";
    color = colour_green;
    author = none;
    fields = [];
    footer = bytes "ID: " ++ bytes (w.discord.show ev.id);
    timestamp = ev.joined;
  }

  abbrev pub send_joined : GuildCreate → MetaLogs → MetaLogs
  send_joined ev st = record st {
    sent =
        record {
          guild = w.discord.null_id;
          channel = w.join_leave_log;
          embeds = joined_embed ev ∷ [];
          files = [];
        }
        ∷ st.sent;
  }

  unfoldable pub guild_create : GuildCreate → MetaLogs → MetaLogs
  guild_create ev st =
      let (found, db') = Guilds.create_guild ev.id st.db in
      let st' = record st { db = db' } in
      if existed found && ev.joined_before
      then st'
      else if w.should_log
      then send_joined ev st'
      else st'

  abbrev pub ready_embed : ℕ → ℕ → Text → Embed
  ready_embed shard shards tag = record {
    title = bytes "Shard ready";
    description = bytes "Shard " ++ w.show shard ++ bytes "/" ++ w.show shards ++ bytes " is ready";
    color = colour_purple;
    author = none;
    fields = [];
    footer = tag;
    timestamp = w.now;
  }

  -- the shard, the number of shards and the tag of the event's user
  unfoldable pub ready : ℕ → ℕ → Text → MetaLogs → MetaLogs
  ready shard shards tag st =
      if w.should_log && w.discord.is_valid w.meta_log
      then record st {
        sent =
            record {
              guild = w.discord.null_id;
              channel = w.meta_log;
              embeds = ready_embed shard shards tag ∷ [];
              files = [];
            }
            ∷ st.sent;
      }
      else st

  unfoldable pub guild_creates : List GuildCreate → MetaLogs → MetaLogs
  guild_creates [] st = st
  guild_creates (ev ∷ evs) st = guild_creates evs (guild_create ev st)
