-- ===== src/Hook.antt =====
-- mylib/hook.c: which files are hooked, the table of descriptors, and the dispatch of system calls.
pub mod Names
pub mod Parse
pub mod Calls
pub mod Dispatch
pub mod Position
pub mod Waits
pub mod Polling
pub mod Waiting
mod Examples
mod WaitExamples
