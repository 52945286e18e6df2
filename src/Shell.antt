-- ===== src/Shell.antt =====
-- kernel/shell.c: the shell.
pub mod Numbers
pub mod Line
pub mod State
pub mod Packages
pub mod Access
pub mod Files
pub mod Info
pub mod Seed
pub mod Nano
pub mod Command
pub mod Machine
pub mod Run
pub mod Network
