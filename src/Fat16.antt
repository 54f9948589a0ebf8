-- ===== src/Fat16.antt =====
-- kernel/src/fat16.c, the FAT16 file system: names, the directory search, paths, cluster chains and
-- the calls on files. A buffer and the disk are functions from an offset to a byte; a C string is
-- the list of its characters before the NUL.
pub mod Name
pub mod NameLaws
pub mod Volume
pub mod Dir
pub mod File
pub mod Search
pub mod Chain
pub mod Clusters
pub mod FreeChain
pub mod Round
pub mod WriteLoop
pub mod Write
pub mod EntryWrite
pub mod WriteFile
mod Tests
