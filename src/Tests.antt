-- ===== src/Tests.antt =====
-- Runs of the model on concrete data.
mod FileTree
mod DiskImage
mod Display
mod Input
mod Terminal
mod Commands
mod Editor
mod IdeDisk
mod DriverImage
mod Scans
mod Wizard
