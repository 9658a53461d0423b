-- ===== src/Branch.antt =====
-- The branch databases, internal/store/branch.go.
pub mod Types
pub mod Content
pub mod Facts
pub mod Snapshot
pub mod Publish
pub mod Read
