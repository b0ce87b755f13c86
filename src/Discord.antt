-- ===== src/Discord.antt =====
-- What the bot relies on of Discord and of the client library arikawa, neither of which is in this
-- repository: identifiers (snowflakes) are numbers, and a value of `Discord` gives the constants and
-- the tests on them. The structs are the library's, with the fields that the bot reads.
pub mod Sample
use catalogger.Base.{
  nat_eq, ◌==◌, ℕ, String, ◌≡◌, ◌≢◌, Bool, true, false, not, ◌&&◌, ◌||◌, Option, List,
}

-- Identifiers and the constants of the library, with the documented facts about them.
pub record Discord : Type 0 where
  -- `Snowflake.IsValid`, which is false of the zero value and of the null value
  pub is_valid : ℕ → Bool
  pub null_id : ℕ
  pub null_invalid : is_valid null_id ≡ false
  pub zero_invalid : is_valid 0 ≡ false
  -- `Snowflake.String`: the digits of a valid identifier, and nothing of an invalid one
  pub show : ℕ → String
  pub show_invalid : (a : ℕ) → is_valid a ≡ false → show a ≡ ""
  pub show_valid : (a : ℕ) → is_valid a ≡ true → show a ≢ ""
  pub show_injective : (a b : ℕ) → is_valid a ≡ true → is_valid b ≡ true → show a ≡ show b → a ≡ b
  -- the channel types
  pub guild_text : ℕ
  pub guild_voice : ℕ
  pub guild_category : ℕ
  pub guild_announcement : ℕ
  pub guild_announcement_thread : ℕ
  pub guild_news_thread : ℕ
  pub guild_public_thread : ℕ
  pub guild_private_thread : ℕ

-- Two identifiers have the same text: they are the same, or neither is valid.
abbrev pub same_id : Discord → ℕ → ℕ → Bool
same_id d a b = a == b || (not (d.is_valid a) && not (d.is_valid b))

pub record Channel : Type 0 where
  pub id : ℕ
  pub type : ℕ
  pub parent_id : ℕ
  pub name : List ℕ

pub record Role : Type 0 where
  pub id : ℕ
  pub name : List ℕ
  pub color : ℕ
  pub hoist : Bool
  pub mentionable : Bool
  pub permissions : ℕ

pub record Guild : Type 0 where
  pub id : ℕ
  pub name : List ℕ

-- A user, as the author of a message or of an invite; `tag` is `User.Tag`.
pub record User : Type 0 where
  pub id : ℕ
  pub username : List ℕ
  pub tag : List ℕ
  pub avatar : List ℕ

-- A member of a guild, with some of its fields.
pub record Member : Type 0 where
  pub user : User
  pub nick : List ℕ
  pub role_ids : List ℕ

pub record EmbedField : Type 0 where
  pub name : List ℕ
  pub value : List ℕ
  pub inline : Bool

-- The fields of an embed that the bot sets. Text is UTF-8, by its bytes.
pub record Embed : Type 0 where
  pub title : List ℕ
  pub description : List ℕ
  pub color : ℕ
  pub author : Option (List ℕ)
  pub fields : List EmbedField
  pub footer : List ℕ
  pub timestamp : ℕ

-- A message as its events carry it. The sizes are those of the attachments; a message that no webhook
-- or application sent has the null identifier there. The footer of an embed without one is empty.
pub record PostedMessage : Type 0 where
  pub id : ℕ
  pub guild_id : ℕ
  pub channel_id : ℕ
  pub author : User
  pub content : List ℕ
  pub attachment_sizes : List ℕ
  pub embeds : List Embed
  pub webhook_id : ℕ
  pub application_id : ℕ

-- A webhook; it has no user when it comes from the bot's own cache.
pub record Webhook : Type 0 where
  pub id : ℕ
  pub token : List ℕ
  pub channel_id : ℕ
  pub user_id : Option ℕ

-- `sendpart.File`, its reader as the text that it reads
pub record File : Type 0 where
  pub name : List ℕ
  pub contents : List ℕ

-- An invite with its inviter; no limit on its uses is 0.
pub record Invite : Type 0 where
  pub code : List ℕ
  pub channel_id : ℕ
  pub inviter : User
  pub uses : ℕ
  pub max_uses : ℕ
