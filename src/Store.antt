-- ===== src/Store.antt =====
-- JournalStore of internal/core/store.go: the Hub's single-process store. Its maps live in memory,
-- and every change is a line of an append-only journal, which a restart replays.
pub mod State
pub mod Journal
pub mod Writes
pub mod Claims
pub mod Durability
pub mod Tasks
pub mod Leases
pub mod Inbox
pub mod Outbox
pub mod Revocations
pub mod Control
pub mod Workflows
pub mod Artifacts
pub mod Operations
pub mod Once
mod Tests
