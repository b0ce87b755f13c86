-- ===== src/Logging.antt =====
-- logging: the handlers of the events that are logged.
mod Split
mod Routing
mod State
mod Sample
mod Delete
mod Update
mod Create
mod Events
mod Cache
mod Roles
mod Invites
mod Channels
mod Meta
