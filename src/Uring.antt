-- ===== src/Uring.antt =====
-- mylib/iouringlib.c and mylib/iouringlib.h: the submission and the completion ring of one core.
pub mod Rings
pub mod Reap
pub mod Submit
pub mod Wait
mod Examples
mod WaitExamples
