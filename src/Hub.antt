-- ===== src/Hub.antt =====
-- The Hub's service (internal/hub/service.go and internal/hub/parts.go): what it makes of messages and of
-- the observations that remote Agents send, over the store.
pub mod Service
pub mod Parts
pub mod Observations
pub mod Routing
pub mod Tasks
pub mod Urls
pub mod Submission
pub mod Push
pub mod Forward
pub mod Lifecycle
pub mod Created
pub mod Repeats
pub mod Pushed
mod Tests
