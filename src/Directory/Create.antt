-- ===== src/Directory/Create.antt =====
-- ouichefs_create of inode.c: what it makes, and that it undoes what it did when it fails.
pub mod Ends
pub mod Opened
pub mod Steps
pub mod Files
pub mod Failures
pub mod Atomic
