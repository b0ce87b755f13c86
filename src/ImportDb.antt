-- ===== src/ImportDb.antt =====
-- cmd/importdb: the copy of an old database into a new one.
mod Old
mod Messages
mod Tests
pub mod Command
