-- ===== src/Common/Permissions.antt =====
-- common/permission_strings.go: the names of permissions. The bit masks are constants of the library,
-- by their names, but for the two that the file declares; a set of permissions has 64 bits.
use catalogger.Base.{
  nat_eq, if◌then◌else◌, ◌==◌, ℕ, zero, suc, ◌+◌, ◌*◌, ◌/◌, ◌%◌, ◌^◌, String, List, [], ◌∷◌, ◌++◌,
}

pub record Perm : Type 0 where
  pub permission : ℕ
  pub name : String

-- `a & b` and `a ^ b` on so many bits
abbrev pub and_bits : ℕ → ℕ → ℕ → ℕ
and_bits zero a b = 0
and_bits (suc n) a b = a % 2 * (b % 2) + 2 * and_bits n (a / 2) (b / 2)

abbrev pub xor_bits : ℕ → ℕ → ℕ → ℕ
xor_bits zero a b = 0
xor_bits (suc n) a b = (a % 2 + b % 2) % 2 + 2 * xor_bits n (a / 2) (b / 2)

abbrev pub perm : ℕ → String → Perm
perm p name = record { permission = p; name = name }

unfoldable pub permission_view_server_insights : ℕ
permission_view_server_insights = 2 ^ 19

unfoldable pub permission_moderate_members : ℕ
permission_moderate_members = 2 ^ 40

module _ (constant : String → ℕ) where
  unfoldable pub major_perms : List Perm
  major_perms =
      perm (constant "PermissionAdministrator") "Administrator"
      ∷ perm (constant "PermissionManageGuild") "Manage Server"
      ∷ perm (constant "PermissionManageWebhooks") "Manage Webhooks"
      ∷ perm (constant "PermissionManageChannels") "Manage Channels"
      ∷ perm (constant "PermissionBanMembers") "Ban Members"
      ∷ perm (constant "PermissionKickMembers") "Kick Members"
      ∷ perm (constant "PermissionManageRoles") "Manage Roles"
      ∷ perm (constant "PermissionManageNicknames") "Manage Nicknames"
      ∷ perm (constant "PermissionManageEmojisAndStickers") "Manage Emojis and Stickers"
      ∷ perm (constant "PermissionManageThreads") "Manage Threads"
      ∷ perm (constant "PermissionManageMessages") "Manage Messages"
      ∷ perm permission_moderate_members "Moderate Members"
      ∷ perm (constant "PermissionMentionEveryone") "Mention Everyone"
      ∷ perm (constant "PermissionModerateMembers") "Timeout Members"
      ∷ perm (constant "PermissionMuteMembers") "Voice Mute Members"
      ∷ perm (constant "PermissionDeafenMembers") "Voice Deafen Members"
      ∷ perm (constant "PermissionMoveMembers") "Voice Move Members"
      ∷ []

  unfoldable pub notable_perms : List Perm
  notable_perms =
      perm (constant "PermissionViewAuditLog") "View Audit Log"
      ∷ perm permission_view_server_insights "View Server Insights"
      ∷ perm (constant "PermissionPrioritySpeaker") "Priority Speaker"
      ∷ perm (constant "PermissionSendTTSMessages") "Send TTS Messages"
      ∷ perm (constant "PermissionCreateInstantInvite") "Create Invite"
      ∷ perm (constant "PermissionCreatePublicThreads") "Create Public Threads"
      ∷ perm (constant "PermissionCreatePrivateThreads") "Create Private Threads"
      ∷ []

  unfoldable pub minor_perms : List Perm
  minor_perms =
      perm (constant "PermissionStream") "Video"
      ∷ perm (constant "PermissionUseVAD") "Use Voice Activity"
      ∷ perm (constant "PermissionSpeak") "Speak"
      ∷ perm (constant "PermissionConnect") "Connect"
      ∷ perm (constant "PermissionRequestToSpeak") "Request to Speak"
      ∷ perm (constant "PermissionAttachFiles") "Attach Files"
      ∷ perm (constant "PermissionEmbedLinks") "Embed Links"
      ∷ perm (constant "PermissionStartEmbeddedActivities") "Start Embedded Activities"
      ∷ perm (constant "PermissionAddReactions") "Add Reactions"
      ∷ perm (constant "PermissionSendMessages") "Send Messages"
      ∷ perm (constant "PermissionSendMessagesInThreads") "Send Messages in Threads"
      ∷ perm (constant "PermissionReadMessageHistory") "Read Message History"
      ∷ perm (constant "PermissionViewChannel") "View Channel"
      ∷ perm (constant "PermissionUseSlashCommands") "Use Slash Commands"
      ∷ perm (constant "PermissionChangeNickname") "Change Nickname"
      ∷ perm (constant "PermissionUseExternalEmojis") "Use External Emojis"
      ∷ []

  unfoldable pub all_perms : List Perm
  all_perms = major_perms ++ notable_perms ++ minor_perms

unfoldable pub perm_strings_for : List Perm → ℕ → List String
perm_strings_for [] p = []
perm_strings_for (m ∷ ms) p =
    if and_bits 64 p m.permission == m.permission
    then m.name ∷ perm_strings_for ms p
    else perm_strings_for ms p
