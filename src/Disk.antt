-- ===== src/Disk.antt =====
-- kernel/disk.c: the file system and the boot image on a disk.
pub mod Drive
pub mod Store
pub mod Install
pub mod Sectors
pub mod SaveLoad
