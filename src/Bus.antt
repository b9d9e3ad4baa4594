-- ===== src/Bus.antt =====
-- The bus of pkg/bus: subjects, registry, requests, mailboxes.
pub mod Subject
mod Examples
pub mod Snapshot
pub mod Registry
pub mod Message
pub mod Waiter
pub mod Local
