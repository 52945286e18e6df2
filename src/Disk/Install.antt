-- ===== src/Disk/Install.antt =====
-- kernel/disk.c: `disk_install_system`.
--
-- The boot sector, the kernel image and the entry offset come from the linker; they are arguments.
-- Sizes are below 2^32, as in the 32-bit kernel.
pub mod Regions
pub mod Loader
use fur_os.Prelude.{
  ℕ, zero, suc, ◌+◌, ◌-◌, ◌*◌, ◌/◌, Bool, true, false, ◌&&◌, ◌||◌, not, Option, none, some, List,
  [], ◌∷◌, ◌++◌, length, drop, ltb, leb, ◌==◌, if◌then◌else◌, codes, min,
}
use fur_os.KString.{kmemcpy}
use fur_os.Fs.Node.{Status, ok, fail, zeros}
use fur_os.Fs.Image.{put32}
use fur_os.Disk.Drive.{Drive, DeviceInfo}
use fur_os.Disk.Store.{
  Disk, disk_available, disk_get_info, failed, sector_size, sectors_of, disk_start_lba,
  disk_total_sectors,
}

abbrev pub boot_info_lba : ℕ
boot_info_lba = 1

abbrev pub kernel_lba_start : ℕ
kernel_lba_start = 2

abbrev pub bootsect_size : ℕ
bootsect_size = 512

abbrev pub max_boot_kernel_sectors : ℕ
max_boot_kernel_sectors = 1920

-- `struct boot_info_sector`, filled.
abbrev pub info_sector : ℕ → ℕ → ℕ → List ℕ
info_sector kernel_size kernel_sectors entry_offset =
    codes "FURBOOT1"
    ++ put32 kernel_size
        (put32 kernel_sectors (put32 entry_offset (put32 0 (zeros (sector_size - 24)))))

-- The sector of the kernel that round `i` of the loop writes: what remains, padded with zeros.
abbrev pub kernel_sector : List ℕ → ℕ → List ℕ
kernel_sector kernel i = kmemcpy (zeros sector_size) (drop (i * sector_size) kernel) (
    if leb sector_size (length kernel - i * sector_size)
    then sector_size
    else length kernel - i * sector_size)

module _ (a : Drive) where
  open a use {State, write_sector, flush}

  -- The disk is known to be too small: the capacity is reported and below what is needed.
  abbrev pub too_small : Disk a → Bool
  too_small d = elim d.g_selected_disk [
    | none ↦ false
    | some index ↦ elim (disk_get_info a d index) [
      | none ↦ false
      | some cap ↦ ltb 0 cap.sectors28 && ltb cap.sectors28 (disk_start_lba + disk_total_sectors)
    ]
  ]

  -- The loop over the sectors of the kernel, with `kernel_sectors - i` rounds left.
  unfoldable pub install_sectors : ℕ → ℕ → List ℕ → State → Status × State
  install_sectors zero i kernel s = (ok, s)
  install_sectors (suc k) i kernel s =
      let w = write_sector s (kernel_lba_start + i) (kernel_sector kernel i) in
      elim (w.0) [ fail ↦ (fail, w.1) | ok ↦ install_sectors k (suc i) kernel w.1 ]

  -- The writes: the boot sector, the boot information, the kernel.
  unfoldable pub write_system : State → List ℕ → List ℕ → ℕ → Status × State
  write_system s bootsect kernel entry_offset =
      let size = length kernel in
      let w = write_sector s 0 (kmemcpy (zeros sector_size) bootsect bootsect_size) in
      elim (w.0) [
        | fail ↦ (fail, w.1)
        | ok ↦
            let i =
              write_sector w.1 boot_info_lba (info_sector size (sectors_of a size) entry_offset) in
            elim (i.0) [
              | fail ↦ (fail, i.1)
              | ok ↦ install_sectors (sectors_of a size) 0 kernel i.1
            ]
      ]

  unfoldable pub disk_install_system : Disk a → List ℕ → List ℕ → ℕ → Status × Disk a
  disk_install_system d bootsect kernel entry_offset =
      let size = length kernel in
      if not (disk_available a d)
      then failed a d "disk unavailable"
      else if too_small d
      then failed a d "disk too small for FurOS (need 3 MB minimum)"
      else if ltb (length bootsect) bootsect_size
      then failed a d "boot sector blob missing"
      else if size == 0 || leb size entry_offset
      then failed a d "invalid kernel image bounds"
      else if sectors_of a size == 0 || ltb max_boot_kernel_sectors (sectors_of a size)
      then failed a d "kernel too large for bootloader"
      else (let w = write_system d.drive bootsect kernel entry_offset in
          elim (w.0) [
            | fail ↦ failed a (record d { drive = w.1 }) (a.last_error w.1)
            | ok ↦ (ok, record d { drive = flush w.1; g_last_error = "ok" })
          ])
