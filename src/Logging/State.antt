-- ===== src/Logging/State.antt =====
-- What the handlers of logging/messages share: the state that they change, and what they take from
-- Discord, PluralKit and the caches.
use catalogger.Base.{nat_eq, string_eq, Result, ℕ, Bool, Option, List}
use catalogger.Discord.{File, Discord, Channel, User, Embed}
use catalogger.Common.Set.{Set}
use catalogger.Db.Crypt.{Text}
use catalogger.Db.Tables.{Db}
use catalogger.Db.Rows.{Services}
use catalogger.Bot.Users.{Users}
use catalogger.Store.Memory.Channels.{Channels as Cabinet}

-- the `SendData` of a call of `bot.Send`, with the guild
pub record Sent : Type 0 where
  pub guild : ℕ
  pub channel : ℕ
  pub embeds : List Embed
  pub files : List File

-- `sent` has the calls of `bot.Send`, the last first.
pub record Logs : Type 0 where
  pub db : Db
  pub proxy_triggers : Set ℕ
  pub handled_messages : Set ℕ
  pub users : Users
  pub sent : List Sent

-- PluralKit's answer about a message: its data, or an error
pub record PkMessage : Type 0 where
  pub id : ℕ
  pub sender : ℕ
  pub system : Option Text
  pub member : Option Text

-- How the libraries write identifiers and users, and the time in an identifier.
pub record Writing : Type 0 where
  pub show : ℕ → Text
  pub mention_user : User → Text
  pub mention_channel : Channel → Text
  pub mention_user_id : ℕ → Text
  pub mention_channel_id : ℕ → Text
  pub time : ℕ → ℕ

pub record World : Type 0 where
  pub discord : Discord
  pub writing : Writing
  pub services : Services
  pub cabinet : Cabinet
  -- the member cache and Discord's API, on a user
  pub member : ℕ → ℕ → Result User
  pub rest_user : ℕ → Result User
  pub pk_message : ℕ → Result PkMessage
  -- `bot.ShouldLog()`
  pub should_log : Bool
  -- `ev.ID.Time().Before(time.Now().Add(1*time.Minute))`, of an identifier
  pub before_soon : ℕ → Bool
