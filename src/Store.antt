-- ===== src/Store.antt =====
-- Package store: the interfaces of the caches, and the store in memory.
pub mod Interface
pub mod Server
pub mod Sample
pub mod Slice
pub mod Memory
pub mod Redis
