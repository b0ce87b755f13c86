-- ===== src/Logging/Events/Tests.antt =====
-- A concrete course of events around a proxied message.
use catalogger.Base.{nat_eq, ◌≡◌, refl, List, [], ◌∷◌}
use catalogger.Logging.Sample.{world, logs, author, posted}
use catalogger.Logging.Create.Sample.{patterns, log_embed, pk_log}
use catalogger.Logging.Create.{pk_message_create}
use catalogger.Logging.Delete.{message_delete}
use catalogger.Logging.Events.{handle_messages, MessageEvent}
use catalogger.Logging.Events.Triggers.{message_delete-pk_message_create}
use catalogger.Logging.State.{Logs}
use catalogger.Common.Set as Set

abbrev between : List MessageEvent
between =
    MessageEvent.created (posted 8 author [] [])
    ∷ MessageEvent.deleted 41 5
    ∷ MessageEvent.woken 5
    ∷ MessageEvent.updated (posted 6 author (66 ∷ []) [])
    ∷ []

abbrev course : Logs
course = handle_messages world patterns between (pk_message_create world patterns pk_log logs)

message_delete-pk_message_create_example :
    message_delete world 41 6 course
    ≡ record course { proxy_triggers = (Set.remove course.proxy_triggers 6).0 }
message_delete-pk_message_create_example =
    message_delete-pk_message_create world patterns pk_log log_embed [] (0 ∷ []) (83 ∷ []) (77 ∷ [])
      (22 ∷ []) (5 ∷ []) (6 ∷ []) [] between 41 logs refl refl refl refl refl refl
