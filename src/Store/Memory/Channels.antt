-- ===== src/Store/Memory/Channels.antt =====
-- store/memory/channel.go
use catalogger.Base.{nat_eq}
use catalogger.Base.{if◌then◌else◌, ◌==◌, ◌>>=◌, Result, ok, ℕ, ◌≡◌, Bool, false, ◌||◌, List, arith}
use catalogger.Discord.{Discord, Channel}
use catalogger.Store.Memory.Index.{Index, list, find, set_one, set_many, remove_one, remove_many}
use catalogger.Store.Memory.Index.Laws.{find-set_one}

-- The fields `channels` and `guildChannels` of the store.
abbrev pub Channels : Type 0
Channels = Index Channel

abbrev pub channel_key : Channel → ℕ
channel_key ch = ch.id

unfoldable pub channels : Channels → ℕ → Result (List Channel)
channels s guild = list s guild

unfoldable pub channel : Channels → ℕ → Result Channel
channel s i = find s i

abbrev is_thread_type : Discord → ℕ → Bool
is_thread_type d t =
    t == d.guild_announcement_thread || t == d.guild_public_thread || t == d.guild_private_thread

unfoldable pub root_channel : Discord → Channels → ℕ → Result Channel
root_channel d s i = do
  ch ← channel s i
  if is_thread_type d ch.type then channel s ch.parent_id else ok ch

unfoldable pub set_channel : Channels → ℕ → Channel → Channels
set_channel s guild ch = set_one channel_key s guild ch

unfoldable pub set_channels : Channels → ℕ → List Channel → Channels
set_channels s guild chs = set_many channel_key s guild chs

unfoldable pub remove_channel : Channels → ℕ → ℕ → Channels
remove_channel s guild i = remove_one s guild i

unfoldable pub remove_channels : Channels → ℕ → Channels
remove_channels s guild = remove_many s guild

-- After `SetChannel` of a thread and of the channel that it hangs under, in this order, the thread's
-- root is that channel, and any channel that is no thread is its own root.
pub root_channel-set_channel :
    (d : Discord) (s : Channels) (guild : ℕ) (thread parent : Channel)
    → thread.parent_id ≡ parent.id
    → (thread.id == parent.id) ≡ false
    → is_thread_type d parent.type ≡ false
    → let t = set_channel (set_channel s guild thread) guild parent in
      (root_channel d t thread.id ≡ (if is_thread_type d thread.type then ok parent else ok thread))
      × (root_channel d t parent.id ≡ ok parent)
unfolding root_channel channel set_channel
root_channel-set_channel d s guild thread parent up other flat =
    let t = set_one channel_key s guild thread in
    ground (
      arith,
      find-set_one channel_key t guild parent thread.id,
      find-set_one channel_key t guild parent parent.id,
      find-set_one channel_key t guild parent thread.parent_id,
      find-set_one channel_key s guild thread thread.id,
    )
