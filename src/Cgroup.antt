-- ===== src/Cgroup.antt =====
-- src/cgroup.c: the cgroup that is made for the sandbox, its configuration, and its removal when the
-- process exits.
pub mod Create
pub mod Configure
pub mod Cleanup
pub mod Removal
pub mod Names
pub mod Owned
pub mod Tidy
pub mod Cleared
