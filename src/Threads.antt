-- ===== src/Threads.antt =====
-- mylib/mylib.c and mylib/myfifo.hpp: what the pthread replacement keeps.
pub mod Fifo
pub mod Queue
pub mod Lazy
pub mod Made
pub mod Once
pub mod Keys
pub mod Objects
pub mod Handles
pub mod Got
pub mod Calls
pub mod Kept
mod Examples
mod CallExamples
