-- ===== src/Mounts.antt =====
-- src/mounts.c: the mounts of a request, and the missing targets that they create.
pub mod Nodes
pub mod Entries
pub mod Buffers
pub mod Cuts
pub mod Parts
pub mod Restore
pub mod Retry
pub mod Target
