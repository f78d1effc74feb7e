-- ===== src/Transfer.antt =====
-- `read_impl` and `write_impl` of mylib/hook.c: how a transfer of a hooked file is cut into requests to
-- the NVMe driver, and which of them are awaited.
pub mod Request
pub mod Impl
pub mod Shape
pub mod Read
pub mod Write
pub mod Grow
pub mod Extend
pub mod Appends
pub mod Reread
mod Examples
mod AppendExamples
