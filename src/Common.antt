-- ===== src/Common.antt =====
-- Package common: the concurrent set and map, and the small helpers that the handlers share.
pub mod Set
pub mod Map
pub mod Permissions
pub mod Colours
pub mod Duration
