-- ===== src/Validator.antt =====
-- The AddOn validator, internal/validator.
pub mod Types
pub mod Matrix
pub mod Paths
pub mod Closure
pub mod Analyze
pub mod Validate
