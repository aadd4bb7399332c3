-- ===== src/Sync.antt =====
-- Synchronisation of sources: internal/status, internal/sync, internal/sync/state and
-- internal/sync/coordinator.
pub mod Status
pub mod Manager
pub mod Perform
pub mod Jobs
pub mod Coordinator
