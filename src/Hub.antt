-- ===== src/Hub.antt =====
-- The hub of hub4com.
pub mod Word
pub mod Msg
pub mod Memory
pub mod Chain
pub mod Route
pub mod Filters
pub mod ComHub
