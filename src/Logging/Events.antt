-- ===== src/Logging/Events.antt =====
-- logging/messages/module.go: the handlers of messages, called for the events that the gateway sends,
-- in any order. A create handler that sleeps goes on at its own event.
pub mod Frame
pub mod Triggers
mod Tests
use catalogger.Logging.State.{Logs, World}
use catalogger.Logging.Create.{Patterns, message_create, message_create_woken, pk_message_create}
use catalogger.Logging.Delete.{message_delete}
use catalogger.Logging.Update.{message_update}
use catalogger.Discord.{PostedMessage}
use catalogger.Base.{ℕ, List, [], ◌∷◌}

pub data MessageEvent : Type 0 where
  -- a new message, for each of its two handlers
  created proxied : PostedMessage → MessageEvent
  -- the end of the sleep for the message with this identifier
  woken : ℕ → MessageEvent
  updated : PostedMessage → MessageEvent
  -- the guild and the message
  deleted : ℕ → ℕ → MessageEvent

unfoldable pub handle_message : World → Patterns → MessageEvent → Logs → Logs
handle_message w p (created m) st = (message_create w m st).0
handle_message w p (proxied m) st = pk_message_create w p m st
handle_message w p (woken id) st = message_create_woken w id st
handle_message w p (updated m) st = message_update w m st
handle_message w p (deleted guild id) st = message_delete w guild id st

unfoldable pub handle_messages : World → Patterns → List MessageEvent → Logs → Logs
unfolding handle_message
handle_messages w p [] st = st
handle_messages w p (e ∷ es) st = handle_messages w p es (handle_message w p e st)
