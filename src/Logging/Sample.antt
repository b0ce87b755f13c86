-- ===== src/Logging/Sample.antt =====
-- A concrete guild with one channel and two messages, for the tests of the handlers of messages.
use catalogger.Db.Messages.{upsert}
use catalogger.Base.{external, err, bytes, ℕ, true, none, List, [], ◌∷◌}
use catalogger.Discord.{Channel, User, Embed, PostedMessage}
use catalogger.Discord.Sample.{sample}
use catalogger.Db.Channels.{Channels, zero_channels}
use catalogger.Db.Tables.{Row}
use catalogger.Db.Sample.{sample_services, sample_message, empty_db}
use catalogger.Logging.State.{Logs, World}

-- a text channel without a category
abbrev pub general : Channel
general = record { id = 31; type = 0; parent_id = 0; name = bytes "general" }

abbrev pub world : World
world = record {
  discord = sample;
  writing = record {
    show = λ i. i ∷ [];
    mention_user = λ u. u.id ∷ [];
    mention_channel = λ c. c.id ∷ [];
    mention_user_id = λ i. i ∷ [];
    mention_channel_id = λ i. i ∷ [];
    time = λ i. i;
  };
  services = sample_services;
  cabinet = record { items = (31, general) ∷ []; guild_items = (41, 31 ∷ []) ∷ [] };
  member = λ g u. err (external 404);
  rest_user = λ u. err (external 404);
  pk_message = λ i. err (external 404);
  should_log = true;
  before_soon = λ i. true;
}

abbrev pub settings : List ℕ → Channels
settings users = record {
  channels = record zero_channels { message_update = 50; message_delete = 50 };
  redirects = [];
  ignores = record { global_channels = []; global_users = users; per_channel = [] };
}

abbrev pub row : Row
row = upsert none (sample_message 5 []) (0 ∷ 0 ∷ 0 ∷ 75 ∷ []) (1 ∷ 1 ∷ 1 ∷ 100 ∷ []) none

abbrev pub logs : Logs
logs = record {
  db = record empty_db { messages = (5, row) ∷ (6, row) ∷ []; guilds = (41, settings []) ∷ [] };
  proxy_triggers = record { m = [] };
  handled_messages = record { m = [] };
  users = [];
  sent = [];
}

abbrev pub author : User
author = record { id = 21; username = 97 ∷ []; tag = 97 ∷ 35 ∷ []; avatar = [] }

-- a message in the channel, by this user
abbrev pub posted : ℕ → User → List ℕ → List Embed → PostedMessage
posted id user content embeds = record {
  id = id;
  guild_id = 41;
  channel_id = 31;
  author = user;
  content = content;
  attachment_sizes = 3 ∷ 4 ∷ [];
  embeds = embeds;
  webhook_id = 0;
  application_id = 0;
}
