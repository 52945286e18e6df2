-- ===== src/Fs.antt =====
-- kernel/fs.c: the in-memory file system, a table of 128 nodes.
pub mod Node
pub mod Tree
pub mod Find
pub mod Resolve
pub mod Create
pub mod Files
pub mod Access
pub mod Layout
pub mod System
pub mod MakePath
pub mod Image
