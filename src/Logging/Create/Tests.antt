-- ===== src/Logging/Create/Tests.antt =====
-- The handlers of a new message, of a webhook with an embed, on a concrete guild.
use catalogger.Base.{nat_eq, ok, ◌≡◌, refl, none, some, [], ◌∷◌}
use catalogger.Logging.Sample.{world, logs, settings, author, posted}
use catalogger.Logging.Create.Sample.{patterns, log_embed, pk_log}
use catalogger.Logging.Create.{message_create, pk_message_create}
use catalogger.Logging.Create.Storing.{get_message-message_create, get_message-pk_message_create}
use catalogger.Db.Crypt.{encrypt, decrypt, opening}
use catalogger.Db.Rows.{Message, open_row, open_metadata}
use catalogger.Db.Messages.{get_message, insert_message}
use catalogger.Db.Messages.RoundTrip.{healthy}
use catalogger.Db.Messages.Proxied.{proxied_message}
use catalogger.Discord.{PostedMessage}
use catalogger.Base.GoMap

abbrev fresh : PostedMessage
fresh = record (posted 8 (record author { avatar = 3 ∷ [] }) [] (log_embed ∷ [])) {
  webhook_id = 77;
}

abbrev stored : Message
stored = record {
  id = 5;
  original_id = none;
  user_id = 21;
  channel_id = 31;
  guild_id = 41;
  content = 72 ∷ [];
  username = 97 ∷ [];
  member = none;
  system = none;
  metadata = none;
  attachment_size = 0;
}

get_message-message_create_example :
    (get_message world.services 8 (healthy (message_create world fresh logs).0.db)).0
    ≡ ok (record stored {
      id = 8;
      content = 78 ∷ 111 ∷ 110 ∷ 101 ∷ [];
      username = 97 ∷ 35 ∷ [];
      metadata =
          some (record { user_id = some 21; username = 97 ∷ []; avatar = 3 ∷ []; embeds = [] });
    })
unfolding insert_message GoMap.get encrypt
get_message-message_create_example =
    get_message-message_create world fresh (settings []) logs refl refl refl refl refl refl

get_message-pk_message_create_example :
    ((get_message world.services 5 (healthy (pk_message_create world patterns pk_log logs).db)).0
      ≡ ok (proxied_message stored 6 22 (83 ∷ []) (77 ∷ [])))
    × (GoMap.get (pk_message_create world patterns pk_log logs).db.messages 6 ≡ none)
unfolding get_message GoMap.get open_row open_metadata decrypt opening
get_message-pk_message_create_example =
    get_message-pk_message_create world patterns pk_log log_embed [] (0 ∷ []) (83 ∷ []) (77 ∷ [])
      (22 ∷ []) (5 ∷ []) (6 ∷ []) [] logs stored refl refl refl refl refl refl refl
