-- ===== src/Desktop.antt =====
-- kernel/desktop.c: the applications of the desktop.
pub mod Kate
