-- ===== src/Db/Channels.antt =====
-- db/channels.go: the log channels of a guild, one for each event that can be logged, and the
-- redirects and ignores that go with them.
use catalogger.Base.{string_eq, if◌then◌else◌, ◌==◌, ℕ, String, Option, none, some, List}
pub mod Laws
use catalogger.Base.GoMap.{GoMap}
use catalogger.Discord.{Discord}

pub record LogChannels : Type 0 where
  pub guild_update : ℕ
  pub guild_emojis_update : ℕ
  pub guild_role_create : ℕ
  pub guild_role_update : ℕ
  pub guild_role_delete : ℕ
  pub channel_create : ℕ
  pub channel_update : ℕ
  pub channel_delete : ℕ
  pub guild_member_add : ℕ
  pub guild_member_update : ℕ
  pub guild_key_role_update : ℕ
  pub guild_member_nick_update : ℕ
  pub guild_member_avatar_update : ℕ
  pub guild_member_remove : ℕ
  pub guild_member_kick : ℕ
  pub guild_ban_add : ℕ
  pub guild_ban_remove : ℕ
  pub invite_create : ℕ
  pub invite_delete : ℕ
  pub message_update : ℕ
  pub message_delete : ℕ
  pub message_delete_bulk : ℕ

-- The fields of `LogChannels`, which Go code points at with `&channels.GuildUpdate`.
pub data Field : Type 0 where
  guild_update guild_emojis_update guild_role_create guild_role_update : Field
  guild_role_delete channel_create channel_update channel_delete guild_member_add : Field
  guild_member_update guild_key_role_update guild_member_nick_update : Field
  guild_member_avatar_update guild_member_remove guild_member_kick guild_ban_add : Field
  guild_ban_remove invite_create invite_delete message_update message_delete : Field
  message_delete_bulk : Field

abbrev pub read : LogChannels → Field → ℕ
read lc Field.guild_update = lc.guild_update
read lc Field.guild_emojis_update = lc.guild_emojis_update
read lc Field.guild_role_create = lc.guild_role_create
read lc Field.guild_role_update = lc.guild_role_update
read lc Field.guild_role_delete = lc.guild_role_delete
read lc Field.channel_create = lc.channel_create
read lc Field.channel_update = lc.channel_update
read lc Field.channel_delete = lc.channel_delete
read lc Field.guild_member_add = lc.guild_member_add
read lc Field.guild_member_update = lc.guild_member_update
read lc Field.guild_key_role_update = lc.guild_key_role_update
read lc Field.guild_member_nick_update = lc.guild_member_nick_update
read lc Field.guild_member_avatar_update = lc.guild_member_avatar_update
read lc Field.guild_member_remove = lc.guild_member_remove
read lc Field.guild_member_kick = lc.guild_member_kick
read lc Field.guild_ban_add = lc.guild_ban_add
read lc Field.guild_ban_remove = lc.guild_ban_remove
read lc Field.invite_create = lc.invite_create
read lc Field.invite_delete = lc.invite_delete
read lc Field.message_update = lc.message_update
read lc Field.message_delete = lc.message_delete
read lc Field.message_delete_bulk = lc.message_delete_bulk

abbrev pub write : LogChannels → Field → ℕ → LogChannels
write lc Field.guild_update i = record lc { guild_update = i }
write lc Field.guild_emojis_update i = record lc { guild_emojis_update = i }
write lc Field.guild_role_create i = record lc { guild_role_create = i }
write lc Field.guild_role_update i = record lc { guild_role_update = i }
write lc Field.guild_role_delete i = record lc { guild_role_delete = i }
write lc Field.channel_create i = record lc { channel_create = i }
write lc Field.channel_update i = record lc { channel_update = i }
write lc Field.channel_delete i = record lc { channel_delete = i }
write lc Field.guild_member_add i = record lc { guild_member_add = i }
write lc Field.guild_member_update i = record lc { guild_member_update = i }
write lc Field.guild_key_role_update i = record lc { guild_key_role_update = i }
write lc Field.guild_member_nick_update i = record lc { guild_member_nick_update = i }
write lc Field.guild_member_avatar_update i = record lc { guild_member_avatar_update = i }
write lc Field.guild_member_remove i = record lc { guild_member_remove = i }
write lc Field.guild_member_kick i = record lc { guild_member_kick = i }
write lc Field.guild_ban_add i = record lc { guild_ban_add = i }
write lc Field.guild_ban_remove i = record lc { guild_ban_remove = i }
write lc Field.invite_create i = record lc { invite_create = i }
write lc Field.invite_delete i = record lc { invite_delete = i }
write lc Field.message_update i = record lc { message_update = i }
write lc Field.message_delete i = record lc { message_delete = i }
write lc Field.message_delete_bulk i = record lc { message_delete_bulk = i }

-- the keys of the JSON object that the database keeps
abbrev pub json_key : Field → String
json_key Field.guild_update = "GUILD_UPDATE"
json_key Field.guild_emojis_update = "GUILD_EMOJIS_UPDATE"
json_key Field.guild_role_create = "GUILD_ROLE_CREATE"
json_key Field.guild_role_update = "GUILD_ROLE_UPDATE"
json_key Field.guild_role_delete = "GUILD_ROLE_DELETE"
json_key Field.channel_create = "CHANNEL_CREATE"
json_key Field.channel_update = "CHANNEL_UPDATE"
json_key Field.channel_delete = "CHANNEL_DELETE"
json_key Field.guild_member_add = "GUILD_MEMBER_ADD"
json_key Field.guild_member_update = "GUILD_MEMBER_UPDATE"
json_key Field.guild_key_role_update = "GUILD_KEY_ROLE_UPDATE"
json_key Field.guild_member_nick_update = "GUILD_MEMBER_NICK_UPDATE"
json_key Field.guild_member_avatar_update = "GUILD_MEMBER_AVATAR_UPDATE"
json_key Field.guild_member_remove = "GUILD_MEMBER_REMOVE"
json_key Field.guild_member_kick = "GUILD_MEMBER_KICK"
json_key Field.guild_ban_add = "GUILD_BAN_ADD"
json_key Field.guild_ban_remove = "GUILD_BAN_REMOVE"
json_key Field.invite_create = "INVITE_CREATE"
json_key Field.invite_delete = "INVITE_DELETE"
json_key Field.message_update = "MESSAGE_UPDATE"
json_key Field.message_delete = "MESSAGE_DELETE"
json_key Field.message_delete_bulk = "MESSAGE_DELETE_BULK"

-- the cases of the `switch` in `For`
abbrev pub event_name : Field → String
event_name Field.guild_update = "GuildUpdateEvent"
event_name Field.guild_emojis_update = "GuildEmojisUpdateEvent"
event_name Field.guild_role_create = "GuildRoleCreateEvent"
event_name Field.guild_role_update = "GuildRoleUpdateEvent"
event_name Field.guild_role_delete = "GuildRoleDeleteEvent"
event_name Field.channel_create = "ChannelCreateEvent"
event_name Field.channel_update = "ChannelUpdateEvent"
event_name Field.channel_delete = "ChannelDeleteEvent"
event_name Field.guild_member_add = "GuildMemberAddEvent"
event_name Field.guild_member_update = "GuildMemberUpdateEvent"
event_name Field.guild_key_role_update = "GuildKeyRoleUpdateEvent"
event_name Field.guild_member_nick_update = "GuildMemberNickUpdateEvent"
event_name Field.guild_member_avatar_update = "GuildMemberAvatarUpdateEvent"
event_name Field.guild_member_remove = "GuildMemberRemoveEvent"
event_name Field.guild_member_kick = "GuildMemberKickEvent"
event_name Field.guild_ban_add = "GuildBanAddEvent"
event_name Field.guild_ban_remove = "GuildBanRemoveEvent"
event_name Field.invite_create = "InviteCreateEvent"
event_name Field.invite_delete = "InviteDeleteEvent"
event_name Field.message_update = "MessageUpdateEvent"
event_name Field.message_delete = "MessageDeleteEvent"
event_name Field.message_delete_bulk = "MessageDeleteBulkEvent"

unfoldable pub field_of_event : String → Option Field
field_of_event name =
    if name == "GuildUpdateEvent"
    then some Field.guild_update
    else if name == "GuildEmojisUpdateEvent"
    then some Field.guild_emojis_update
    else if name == "GuildRoleCreateEvent"
    then some Field.guild_role_create
    else if name == "GuildRoleUpdateEvent"
    then some Field.guild_role_update
    else if name == "GuildRoleDeleteEvent"
    then some Field.guild_role_delete
    else if name == "ChannelCreateEvent"
    then some Field.channel_create
    else if name == "ChannelUpdateEvent"
    then some Field.channel_update
    else if name == "ChannelDeleteEvent"
    then some Field.channel_delete
    else if name == "GuildMemberAddEvent"
    then some Field.guild_member_add
    else if name == "GuildMemberRemoveEvent"
    then some Field.guild_member_remove
    else if name == "GuildMemberUpdateEvent"
    then some Field.guild_member_update
    else if name == "GuildKeyRoleUpdateEvent"
    then some Field.guild_key_role_update
    else if name == "GuildMemberNickUpdateEvent"
    then some Field.guild_member_nick_update
    else if name == "GuildMemberAvatarUpdateEvent"
    then some Field.guild_member_avatar_update
    else if name == "GuildMemberKickEvent"
    then some Field.guild_member_kick
    else if name == "GuildBanAddEvent"
    then some Field.guild_ban_add
    else if name == "GuildBanRemoveEvent"
    then some Field.guild_ban_remove
    else if name == "InviteCreateEvent"
    then some Field.invite_create
    else if name == "InviteDeleteEvent"
    then some Field.invite_delete
    else if name == "MessageUpdateEvent"
    then some Field.message_update
    else if name == "MessageDeleteEvent"
    then some Field.message_delete
    else if name == "MessageDeleteBulkEvent"
    then some Field.message_delete_bulk
    else none

abbrev read_or_null : Discord → LogChannels → Option Field → ℕ
read_or_null d lc none = d.null_id
read_or_null d lc (some f) = read lc f

unfoldable pub for : Discord → LogChannels → String → ℕ
unfolding field_of_event
for d lc name = read_or_null d lc (field_of_event name)

-- `Redirects` and `Ignores.PerChannel` have the decimal form of a channel's identifier as keys.
pub record Ignores : Type 0 where
  pub global_channels : List ℕ
  pub global_users : List ℕ
  pub per_channel : GoMap String (List ℕ)

pub record Channels : Type 0 where
  pub channels : LogChannels
  pub redirects : GoMap String ℕ
  pub ignores : Ignores

-- `LogChannels{}`
abbrev pub zero_channels : LogChannels
zero_channels = record {
  guild_update = 0;
  guild_emojis_update = 0;
  guild_role_create = 0;
  guild_role_update = 0;
  guild_role_delete = 0;
  channel_create = 0;
  channel_update = 0;
  channel_delete = 0;
  guild_member_add = 0;
  guild_member_update = 0;
  guild_key_role_update = 0;
  guild_member_nick_update = 0;
  guild_member_avatar_update = 0;
  guild_member_remove = 0;
  guild_member_kick = 0;
  guild_ban_add = 0;
  guild_ban_remove = 0;
  invite_create = 0;
  invite_delete = 0;
  message_update = 0;
  message_delete = 0;
  message_delete_bulk = 0;
}
