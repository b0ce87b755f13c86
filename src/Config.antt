-- ===== src/Config.antt =====
-- commands/config/channels.go: the menu by which a guild chooses its log channels.
use catalogger.Base.{string_eq, if◌then◌else◌, ◌==◌, ℕ, String, Option, none, some, List, [], ◌∷◌}
pub mod Menu
pub mod Session
mod Tests
use catalogger.Base.GoMap.{GoMap}
use catalogger.Discord.{Discord}
use catalogger.Db.Channels.{Channels, LogChannels, Field, write}

-- The rows of buttons below the menu: label and identifier.
abbrev pub channel_buttons : List (List (String × String))
channel_buttons =
    (("Server changes", "channel:GUILD_UPDATE")
      ∷ ("Emote changes", "channel:GUILD_EMOJIS_UPDATE")
      ∷ ("New roles", "channel:GUILD_ROLE_CREATE")
      ∷ ("Edited roles", "channel:GUILD_ROLE_UPDATE")
      ∷ ("Deleted roles", "channel:GUILD_ROLE_DELETE")
      ∷ [])
    ∷ (("New channels", "channel:CHANNEL_CREATE")
        ∷ ("Edited channels", "channel:CHANNEL_UPDATE")
        ∷ ("Deleted channels", "channel:CHANNEL_DELETE")
        ∷ ("Members joining", "channel:GUILD_MEMBER_ADD")
        ∷ ("Members leaving", "channel:GUILD_MEMBER_REMOVE")
        ∷ [])
    ∷ (("Member role changes", "channel:GUILD_MEMBER_UPDATE")
        ∷ ("Key role changes", "channel:GUILD_KEY_ROLE_UPDATE")
        ∷ ("Member name changes", "channel:GUILD_MEMBER_NICK_UPDATE")
        ∷ ("Avatar changes", "channel:GUILD_MEMBER_AVATAR_UPDATE")
        ∷ ("Kicks", "channel:GUILD_MEMBER_KICK")
        ∷ [])
    ∷ (("Bans", "channel:GUILD_BAN_ADD")
        ∷ ("Unbans", "channel:GUILD_BAN_REMOVE")
        ∷ ("New invites", "channel:INVITE_CREATE")
        ∷ ("Deleted invites", "channel:INVITE_DELETE")
        ∷ ("Edited messages", "channel:MESSAGE_UPDATE")
        ∷ [])
    ∷ (("Deleted messages", "channel:MESSAGE_DELETE")
        ∷ ("Bulk deleted messages", "channel:MESSAGE_DELETE_BULK")
        ∷ ("Close", "channel:close")
        ∷ [])
    ∷ []

-- The embed of the menu: label and channel.
abbrev pub embed_fields : List (String × Field)
embed_fields =
    ("Server changes", Field.guild_update)
    ∷ ("Emote changes", Field.guild_emojis_update)
    ∷ ("New roles", Field.guild_role_create)
    ∷ ("Edited roles", Field.guild_role_update)
    ∷ ("Deleted roles", Field.guild_role_delete)
    ∷ ("New channels", Field.channel_create)
    ∷ ("Edited channels", Field.channel_update)
    ∷ ("Deleted channels", Field.channel_delete)
    ∷ ("Members joining", Field.guild_member_add)
    ∷ ("Members leaving", Field.guild_member_remove)
    ∷ ("Member role changes", Field.guild_member_update)
    ∷ ("Key role changes", Field.guild_key_role_update)
    ∷ ("Member name changes", Field.guild_member_nick_update)
    ∷ ("Avatar changes", Field.guild_member_avatar_update)
    ∷ ("Kicks", Field.guild_member_kick)
    ∷ ("Bans", Field.guild_ban_add)
    ∷ ("Unbans", Field.guild_ban_remove)
    ∷ ("New invites", Field.invite_create)
    ∷ ("Deleted invites", Field.invite_delete)
    ∷ ("Edited messages", Field.message_update)
    ∷ ("Deleted messages", Field.message_delete)
    ∷ ("Bulk deleted messages", Field.message_delete_bulk)
    ∷ []

-- The `switch` on the pressed button: the subject of the page, and the field that it changes.
unfoldable pub page_of_button : String → Option (String × Field)
page_of_button id =
    if id == "channel:GUILD_UPDATE"
    then some ("Server changes", Field.guild_update)
    else if id == "channel:GUILD_EMOJIS_UPDATE"
    then some ("Emote changes", Field.guild_emojis_update)
    else if id == "channel:GUILD_ROLE_CREATE"
    then some ("New roles", Field.guild_role_create)
    else if id == "channel:GUILD_ROLE_UPDATE"
    then some ("Edited roles", Field.guild_role_update)
    else if id == "channel:GUILD_ROLE_DELETE"
    then some ("Deleted roles", Field.guild_role_delete)
    else if id == "channel:CHANNEL_CREATE"
    then some ("New channels", Field.channel_create)
    else if id == "channel:CHANNEL_UPDATE"
    then some ("Edited channels", Field.channel_update)
    else if id == "channel:CHANNEL_DELETE"
    then some ("Deleted channels", Field.channel_delete)
    else if id == "channel:GUILD_MEMBER_ADD"
    then some ("Members joining", Field.guild_member_add)
    else if id == "channel:GUILD_MEMBER_REMOVE"
    then some ("Members leaving", Field.guild_member_remove)
    else if id == "channel:GUILD_MEMBER_UPDATE"
    then some ("Member role changes", Field.guild_member_update)
    else if id == "channel:GUILD_KEY_ROLE_UPDATE"
    then some ("Key role changes", Field.guild_key_role_update)
    else if id == "channel:GUILD_MEMBER_NICK_UPDATE"
    then some ("Member name changes", Field.guild_member_nick_update)
    else if id == "channel:GUILD_MEMBER_AVATAR_UPDATE"
    then some ("Avatar changes", Field.guild_member_avatar_update)
    else if id == "channel:GUILD_MEMBER_KICK"
    then some ("Kicks", Field.guild_member_kick)
    else if id == "channel:GUILD_BAN_ADD"
    then some ("Bans", Field.guild_ban_add)
    else if id == "channel:GUILD_BAN_REMOVE"
    then some ("Unbans", Field.guild_ban_remove)
    else if id == "channel:INVITE_CREATE"
    then some ("New invites", Field.invite_create)
    else if id == "channel:INVITE_DELETE"
    then some ("Deleted invites", Field.invite_delete)
    else if id == "channel:MESSAGE_UPDATE"
    then some ("Edited messages", Field.message_update)
    else if id == "channel:MESSAGE_DELETE"
    then some ("Deleted messages", Field.message_delete)
    else if id == "channel:MESSAGE_DELETE_BULK"
    then some ("Bulk deleted messages", Field.message_delete_bulk)
    else none

-- How a page ends: an error, no answer, a choice in the channel select, or a button.
pub data PageEvent : Type 0 where
  reply_failed original_failed timed_out context_failed : PageEvent
  selected : List ℕ → PageEvent
  pressed : String → PageEvent

-- The page writes through the pointer to the field that it is given.
unfoldable pub channel_page : Discord → LogChannels → Field → PageEvent → LogChannels
channel_page d lc f (selected []) = lc
channel_page d lc f (selected (v ∷ vs)) = write lc f v
channel_page d lc f (pressed id) = if id == "channel:reset" then write lc f d.null_id else lc
channel_page d lc f _ = lc
