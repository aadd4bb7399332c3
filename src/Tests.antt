-- ===== src/Tests.antt =====
-- Concrete data on which the theorems are applied.
pub mod Claims
pub mod Config
pub mod Filtering
mod Sync
mod Entries
mod Listing
mod Catalog
mod Endpoint
