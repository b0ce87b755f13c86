-- ===== src/Logging/Delete/Tests.antt =====
-- The handler of a deleted message on a concrete guild with one channel and one message.
use catalogger.Db.Crypt.{decrypt, opening}
use catalogger.Store.Memory.Channels.{root_channel, channel}
use catalogger.Logging.Delete.Forgetting.{message_delete-gone}
use catalogger.Logging.Delete.Sending.{SendsOnce, message_delete-SendsOnce, log_message-ignored}
use catalogger.Logging.Delete.{message_delete, log_message, Message}
use catalogger.Db.Rows.{open_row, open_metadata}
use catalogger.Db.Messages.{get_message}
use catalogger.Store.Memory.Index as Index
use catalogger.Logging.Sample.{world, logs, settings, general}
use catalogger.Base.GoMap
use catalogger.Base.{nat_eq, string_eq, ◌≡◌, refl, none, [], ◌∷◌}
use catalogger.Common.Set as Set
use catalogger.Common.Set.{Entry, entry}
use catalogger.Store.Memory.Index.{Index}

message_delete-gone_example : GoMap.get (message_delete world 41 5 logs).db.messages 5 ≡ none
unfolding GoMap.get Set.exists
message_delete-gone_example =
    message_delete-gone world 41 5 logs (settings []) refl refl refl refl refl refl

message_delete-SendsOnce_example : SendsOnce world [] (message_delete world 41 5 logs)
message_delete-SendsOnce_example = message_delete-SendsOnce world 41 5 logs

abbrev deleted : Message
deleted = record {
  id = 5;
  original_id = none;
  user_id = 21;
  channel_id = 31;
  guild_id = 41;
  content = 72 ∷ [];
  username = 97 ∷ [];
  member = none;
  system = none;
  metadata = none;
  attachment_size = 0;
}

log_message-ignored_example : (log_message world 5 (settings (21 ∷ [])) logs).sent ≡ []
unfolding get_message GoMap.get open_row open_metadata decrypt opening root_channel channel
    Index.find
log_message-ignored_example =
    log_message-ignored world 5 (settings (21 ∷ [])) logs deleted general refl refl refl
