-- ===== src/Fs.antt =====
-- mylib/myfs.h and mylib/myfs.c: the file table, the ring of free blocks, and the block map of the
-- file system that lives in the memory-mapped superblock. The arrays of the superblock are functions
-- of the index; every operation is taken as one step.
pub mod State
pub mod Ops
pub mod Open
pub mod Count
pub mod Blocks
pub mod Invariant
pub mod Unlink
pub mod Mount
pub mod Lookup
pub mod Addresses
pub mod Allocs
pub mod Shared
pub mod Steps
pub mod References
pub mod Removal
pub mod Examples
mod SharedExamples
