-- ===== src/Db.antt =====
-- Package db: the log channels of a guild, the stored messages and their encryption.
pub mod Channels
pub mod Crypt
pub mod Tables
pub mod Guilds
pub mod Rows
pub mod Messages
pub mod Sample
mod Tests
