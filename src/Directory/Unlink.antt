-- ===== src/Directory/Unlink.antt =====
-- ouichefs_unlink of inode.c: an empty regular file, which has neither slices nor blocks, and a file that
-- ouichefs_create made.
pub mod Empty
pub mod Undone
