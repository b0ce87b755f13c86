-- ===== src/Logging/Update/Tests.antt =====
-- The handler of an edited message on a concrete guild with one channel and two messages.
use catalogger.Logging.Sample.{world, logs, settings, general, author, posted}
use catalogger.Logging.Update.{message_update}
use catalogger.Logging.Update.Storing.{message_update-keeps}
use catalogger.Logging.Update.Sending.{SendsEdit, message_update-SendsEdit}
use catalogger.Db.Crypt.{encrypt, decrypt, opening}
use catalogger.Db.Rows.{Message, open_row, open_metadata}
use catalogger.Db.Messages.{get_message, insert_message}
use catalogger.Db.Messages.RoundTrip.{healthy}
use catalogger.Store.Memory.Channels.{root_channel, channel}
use catalogger.Store.Memory.Index as Index
use catalogger.Discord.{PostedMessage}
use catalogger.Base.GoMap
use catalogger.Base.{ok, ◌≡◌, refl, none, [], ◌∷◌}

abbrev edit : PostedMessage
edit = posted 5 author (66 ∷ 67 ∷ []) []

abbrev stored : Message
stored = record {
  id = 5;
  original_id = none;
  user_id = 21;
  channel_id = 31;
  guild_id = 41;
  content = 72 ∷ [];
  username = 97 ∷ [];
  member = none;
  system = none;
  metadata = none;
  attachment_size = 0;
}

message_update-keeps_example :
    (get_message world.services 5 (healthy (message_update world edit logs).db)).0
    ≡ ok (record stored { content = 66 ∷ 67 ∷ [] })
unfolding get_message insert_message GoMap.get GoMap.put open_row open_metadata decrypt encrypt
    opening root_channel channel Index.find
message_update-keeps_example =
    message_update-keeps world edit (settings []) general logs stored refl refl refl refl refl refl
      refl refl refl refl

message_update-SendsEdit_example :
    SendsEdit world edit []
      (get_message world.services 5 logs.db).0
      (message_update world edit logs)
message_update-SendsEdit_example = message_update-SendsEdit world edit logs refl
