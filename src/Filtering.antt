-- ===== src/Filtering.antt =====
-- Filtering of synced registry data: internal/filtering and internal/registry/tags.go.
pub mod Tags
pub mod Names
pub mod Service
