-- ===== src/ObjectStore.antt =====
-- The content-addressed object store, internal/objectstore/store.go.
pub mod Hex
pub mod Header
pub mod Pack
pub mod Index
pub mod Builder
pub mod Publish
pub mod Read
