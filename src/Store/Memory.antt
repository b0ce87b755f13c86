-- ===== src/Store/Memory.antt =====
-- Package store/memory: guilds, channels and roles in Go maps. Each method holds one mutex for its
-- whole body, so it is one atomic step. Channels and roles are kept in the same way, by `Index`.
pub mod Index
pub mod Channels
pub mod Roles
mod Tests
