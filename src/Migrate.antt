-- ===== src/Migrate.antt =====
-- The migrations of pkg/migrate.
pub mod Run
pub mod Discover
pub mod Database
pub mod Gate
pub mod Commands
mod Examples
