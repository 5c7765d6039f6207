-- ===== src/Sync.antt =====
-- internal/sync: how the configuration of flags and launches gets into the tables.
pub mod Compile
pub mod Definitions
pub mod Launches
pub mod Stored
pub mod Evaluated
pub mod Tables
pub mod Conditions
pub mod Life
