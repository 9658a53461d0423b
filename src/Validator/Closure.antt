-- ===== src/Validator/Closure.antt =====
-- The load closure of an AddOn: `closureBuilder` of internal/validator/closure.go.
pub mod Disk
pub mod Resolve
pub mod Load
pub mod Toc
pub mod Contained
pub mod Unloaded
pub mod Bounded
pub mod Kept
pub mod Indexed
pub mod Builder
