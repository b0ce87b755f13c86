-- ===== src/Logging/Channels/Tests.antt =====
-- Two created channels, one with an overwrite for a role.
use catalogger.Base.{All, external, ok, err, bytes, ℕ, ◌≡◌, refl, true, List, [], ◌∷◌, map}
use catalogger.Discord.Sample.{sample}
use catalogger.Store.Memory.Roles.{memory_roles}
use catalogger.Store.Memory.Index.{empty}
use catalogger.Store.Memory.Channels.{channel}
use catalogger.Logging.Channels.{channel_creates, ChannelWorld, ChannelLogs, ChannelCreate}
use catalogger.Logging.Channels.Creation.{IsShort, channel_creates_complete}

abbrev world : ChannelWorld
world = record {
  discord = sample;
  overwrite_role = 0;
  overwrite_member = 1;
  constant = λ name. 1;
  should_log = true;
  now = 9;
  member = λ g u. err (external 404);
  rest_user = λ u. err (external 404);
}

abbrev text_channel : ℕ → ChannelCreate
text_channel id = record {
  guild_id = 41;
  channel = record { id = id; type = 0; parent_id = 0; name = bytes "general" };
  overwrites = record { id = 3; type = 0; allow = 1; deny = 0 } ∷ [];
}

abbrev unknown : ChannelLogs memory_roles
unknown = record { channels = empty; roles = empty; users = []; sent = [] }

abbrev history : List ChannelCreate
history = text_channel 31 ∷ text_channel 32 ∷ []

channel_creates_complete_example :
    (channel (channel_creates memory_roles world history unknown).channels 31
      ≡ ok (text_channel 31).channel)
    × (map (λ x. x.0) (channel_creates memory_roles world history unknown).sent ≡ 41 ∷ 41 ∷ [])
    × All IsShort (channel_creates memory_roles world history unknown).sent
channel_creates_complete_example =
    channel_creates_complete memory_roles world history unknown 31 refl
