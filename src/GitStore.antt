-- ===== src/GitStore.antt =====
-- What the program reads from git, internal/gitstore/git.go.
pub mod Words
pub mod Tree
pub mod Errors
pub mod Retry
pub mod Blobs
