-- ===== src/Bot.antt =====
-- Package bot: sending log messages, with a queue of embeds for each webhook.
pub mod Queue
pub mod Users
pub mod Metrics
mod Sample
mod Tests
mod Webhooks
mod Send
