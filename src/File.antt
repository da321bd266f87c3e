-- ===== src/File.antt =====
-- file.c: the reading and writing of files. An inode is modelled by its number, and the
-- `struct kiocb` and the `struct iov_iter` of the call are the field `io` of the state. Reading
-- is in File/Reads, and writing in File/SmallWrites, File/BigWrites and File/Writes.
pub mod InPlace
pub mod BigBytes
pub mod BigReads
pub mod Limits
pub mod Outcomes
pub mod Failures
pub mod Conversion
pub mod BigEnds
pub mod Truncate
pub mod BigContents
pub mod BigTaken
pub mod BigLoop
pub mod BigRounds
pub mod Reads
pub mod SmallReads
pub mod SmallWrites
pub mod BigWrites
pub mod Writes
pub mod PageCache
