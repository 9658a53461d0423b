-- ===== src/Tests.antt =====
-- Concrete inputs for the theorems of the other modules.
pub mod Objects
pub mod References
pub mod Addons
pub mod Locks
pub mod Versions
pub mod Queries
pub mod Searches
pub mod Gits
pub mod Branches
pub mod Patterns
pub mod Closures
pub mod Matrices
pub mod Indexing
