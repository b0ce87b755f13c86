-- ===== src/Db/Tests.antt =====
-- The database's theorems on concrete tables.
use catalogger.Base.GoMap
use catalogger.Base.{nat_eq, ok, bytes, ◌≡◌, refl, [], ◌∷◌}
use catalogger.Db.Crypt.{encrypt, opening, decrypt}
use catalogger.Db.Tables.{Db}
use catalogger.Db.Rows.{or_empty, open_metadata, open_row}
use catalogger.Db.Messages.{seal, seal_metadata, insert_message, get_message}
use catalogger.Db.Messages.RoundTrip.{
  healthy, as_stored, get_message-insert_message, get_message-insert_message_again,
  insert_message-keeps,
}
use catalogger.Db.Sample.{sample_services, sample_message, empty_db}

-- a table with one message
abbrev one_message : Db
one_message = (insert_message sample_services (sample_message 5 (72 ∷ 105 ∷ [])) empty_db).1

get_message-insert_message_example :
    (get_message sample_services 5 (healthy one_message)).0
    ≡ ok (as_stored (sample_message 5 (72 ∷ 105 ∷ [])))
unfolding insert_message seal seal_metadata encrypt GoMap.get
get_message-insert_message_example =
    get_message-insert_message sample_services (sample_message 5 (72 ∷ 105 ∷ [])) empty_db refl refl

get_message-insert_message_again_example :
    (get_message sample_services 5
      (healthy (insert_message sample_services (sample_message 5 []) one_message).1)).0
    ≡ ok (record (as_stored (sample_message 5 (72 ∷ 105 ∷ []))) { content = bytes "None" })
unfolding insert_message seal seal_metadata encrypt get_message open_row open_metadata or_empty
    decrypt opening GoMap.get GoMap.put
get_message-insert_message_again_example =
    get_message-insert_message_again sample_services (sample_message 5 [])
      (as_stored (sample_message 5 (72 ∷ 105 ∷ []))) one_message refl refl

insert_message-keeps_example :
    GoMap.get
      (insert_message sample_services
        (sample_message 5 [])
        (record one_message { draws = 8 })).1.messages
      5
    ≡ GoMap.get one_message.messages 5
unfolding insert_message seal seal_metadata encrypt
insert_message-keeps_example =
    insert_message-keeps sample_services (sample_message 5 []) (record one_message { draws = 8 }) 5
      (λ same. refl)
