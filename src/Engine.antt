-- ===== src/Engine.antt =====
-- src/engine/adapters: what the engines report, mapped to the messages of the program.
pub mod Json
pub mod Ids
pub mod Parts
pub mod Mapper
pub mod Sync
pub mod Sorting
pub mod SyncOrder
pub mod BaileysStore
