-- ===== src/Backup.antt =====
-- abt_backup: the tool that copies the blocks of all files to one file, and the one that brings them back.
pub mod Tools
pub mod Restored
pub mod Roundtrip
pub mod Striped
mod Examples
