-- ===== src/Zpoline.antt =====
-- mylib/zpoline.c: the trampoline at address 0, the bitmap of rewritten addresses, and the rewriting of
-- system call instructions.
pub mod Machine
pub mod Trampoline
pub mod Entry
pub mod Rewrite
pub mod Maps
pub mod Printed
pub mod Hook
pub mod Returns
mod Examples
