-- ===== src/Ata.antt =====
-- kernel/ata.c: the driver of the IDE and AHCI disks.
pub mod Bus
pub mod Ide
pub mod Probe
pub mod Ahci
pub mod Scan
pub mod Sectors
pub mod Selected
pub mod Drive
