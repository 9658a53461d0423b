-- ===== src/Query.antt =====
-- What the program answers from an indexed snapshot, internal/query.
pub mod Compat
pub mod Pattern
pub mod Types
pub mod Ready
pub mod Excerpt
pub mod Tiers
pub mod Search
pub mod Diff
