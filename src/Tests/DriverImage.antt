-- ===== src/Tests/DriverImage.antt =====
-- kernel/disk.c over the driver of kernel/ata.c, with one IDE disk of 64 MB.
use fur_os.Prelude.{
  ℕ, ◌≡◌, ◌≤◌, refl, false, some, List, [], ◌∷◌, arith, set, replicate, length-replicate,
}
use fur_os.KString.{kstrcpy}
use fur_os.KString.Bytes.{replicate-IsBytes, all_bytes, all_bytes-IsBytes}
use fur_os.Fs.Node.{node_at, make_root, fs_init, ok}
use fur_os.Fs.System.{fs_init-IsFileSystem}
use fur_os.Fs.Image.Bytes.{fs_init-HasBytes}
use fur_os.Ata.Drive.{IsReady, ata_drive, ata_drive-Keeps, ready_healthy, same_capacity}
use fur_os.Ata.Sectors.{ata_get_info}
use fur_os.Disk.Drive.{Drive, Keeps}
use fur_os.Disk.Store.{Disk, disk_payload_max, disk_save_fs, disk_load_fs}
use fur_os.Disk.Install.{disk_install_system, too_small}
use fur_os.Disk.Install.Loader.{Bootable}
use fur_os.Disk.Install.Regions.{disk_install_system-Bootable}
use fur_os.Disk.SaveLoad.{load-save}
use fur_os.Tests.IdeDisk.{
  one_disk, one_disk_speaks, many_sectors, first_device, scanned, scanned-IsIde, scanned-IsServing,
}

abbrev driver : Drive
driver = ata_drive one_disk 4 0x100000 0x7E00

abbrev driver_keeps : Keeps driver
driver_keeps = ata_drive-Keeps one_disk 4 0x100000 0x7E00 0 first_device one_disk_speaks

abbrev at_scan : Disk driver
at_scan = record {
  drive = scanned;
  g_disk_count = 1;
  g_selected_disk = some 0;
  g_last_error = "ok";
  g_payload = replicate disk_payload_max 0;
}

ready : IsReady one_disk 4 0x100000 0x7E00 0 first_device one_disk_speaks scanned
ready = record { ide = scanned-IsIde; device = refl; serving = scanned-IsServing }

healthy : driver_keeps.IsHealthy at_scan.drive
healthy = ready_healthy one_disk 4 0x100000 0x7E00 0 first_device one_disk_speaks scanned ready

large : 6144 ≤ driver_keeps.capacity
large = rw (same_capacity one_disk 4 0x100000 0x7E00 0 first_device one_disk_speaks) many_sectors

big_enough : too_small driver at_scan ≡ false
unfolding ata_get_info kstrcpy
big_enough = refl

load-save_example :
    ((disk_save_fs driver at_scan fs_init).0 ≡ ok)
    × ((disk_load_fs driver (disk_save_fs driver at_scan fs_init).1 fs_init).0 ≡ ok)
    × ((disk_load_fs driver (disk_save_fs driver at_scan fs_init).1 fs_init).2
        ≡ set fs_init 0 (make_root (node_at fs_init 0)))
load-save_example =
    load-save driver driver_keeps at_scan fs_init fs_init healthy large refl
      (length-replicate {A = ℕ} disk_payload_max 0)
      (replicate-IsBytes disk_payload_max 0 (omega arith)) fs_init-IsFileSystem fs_init-HasBytes

abbrev boot_blob : List ℕ
boot_blob = replicate 512 0

-- A kernel of three bytes.
abbrev kernel_blob : List ℕ
kernel_blob = 1 ∷ 2 ∷ 3 ∷ []

disk_install_system-Bootable_example :
    ((disk_install_system driver at_scan boot_blob kernel_blob 1).0 ≡ ok)
    × Bootable boot_blob kernel_blob 1
        (driver_keeps.sector (disk_install_system driver at_scan boot_blob kernel_blob 1).1.drive)
disk_install_system-Bootable_example =
    disk_install_system-Bootable driver driver_keeps at_scan boot_blob kernel_blob 1 healthy large
      refl big_enough (replicate-IsBytes 512 0 (omega arith))
      (all_bytes-IsBytes kernel_blob (unfold all_bytes in refl))
      (omega (arith, length-replicate {A = ℕ} 512 0)) (omega arith) (omega arith)
