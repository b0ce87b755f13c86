-- ===== src/Logging/Routing/Tests.antt =====
-- The ignores and the redirects of a guild with a thread in a channel.
use catalogger.Base.GoMap
use catalogger.Base.{nat_eq, string_eq, bytes, ◌≡◌, [], ◌∷◌}
use catalogger.Discord.{Channel}
use catalogger.Discord.Sample.{sample}
use catalogger.Db.Channels.{Channels, Ignores, zero_channels}
use catalogger.Logging.Routing.{log_channel}
use catalogger.Logging.Routing.Scopes.{log_channel-scopes}

abbrev help : Channel
help = record { id = 12; type = 0; parent_id = 4; name = bytes "help" }

abbrev ignores : Ignores
ignores = record { global_channels = 4 ∷ []; global_users = []; per_channel = [] }

abbrev settings : Channels
settings = record { channels = zero_channels; redirects = ("xxxx", 60) ∷ []; ignores = ignores }

log_channel-scopes_example : log_channel sample 50 settings 13 help ≡ 60
unfolding GoMap.get
log_channel-scopes_example = log_channel-scopes sample 50 settings 13 help
