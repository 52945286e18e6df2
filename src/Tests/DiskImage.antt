-- ===== src/Tests/DiskImage.antt =====
-- kernel/disk.c over a disk that is a function from its sectors.
use fur_os.Prelude.{
  ℕ, ◌≡◌, ◌≢◌, ◌<◌, ◌≤◌, ◌∙◌, refl, true, none, some, List, [], ◌∷◌, arith, codes, ◌==◌,
  if◌then◌else◌, ==_refl, replicate,
}
use fur_os.Fs.Node.{ok, Status}
use fur_os.Disk.Drive.{Drive, DeviceInfo, Keeps}
use fur_os.Disk.Store.{Disk, disk_payload_max}
use fur_os.Disk.Install.{disk_install_system}
use fur_os.Disk.Install.Regions.{disk_install_system-other}

-- The only disk, of 10000 sectors.
pub the_info : DeviceInfo
the_info = record {
  present = true;
  index = 0;
  interface_type = 1;
  io_base = 0x1F0;
  slave = 0;
  sectors28 = 10000;
  model = codes "memory";
}

pub put_sector : (ℕ → List ℕ) → ℕ → List ℕ → ℕ → List ℕ
put_sector s lba b j = if lba == j then b else s j

abbrev pub memory : Drive
memory = record {
  State = ℕ → List ℕ;
  scan = λ s. some (1, s);
  selected_device = λ s. some 0;
  get_info = λ s i. if i == 0 then some the_info else none;
  select_device = λ s i. (if i == 0 then ok else Status.fail, s);
  read_sector = λ s lba. (some (s lba), s);
  write_sector = λ s lba b. (ok, put_sector s lba b);
  flush = λ s. s;
  last_error = λ s. "ok";
}

pub stores : (s : ℕ → List ℕ) (lba : ℕ) (b : List ℕ) → put_sector s lba b lba ≡ b
unfolding put_sector
stores s lba b = rw (==_refl lba) refl

pub keeps_others : (s : ℕ → List ℕ) (lba j : ℕ) (b : List ℕ) → lba ≢ j → put_sector s lba b j ≡ s j
unfolding put_sector
keeps_others s lba j b n = ground (arith, n)

pub memory_keeps : Keeps memory
memory_keeps = record {
  capacity = 10000;
  sector = λ s j. s j;
  IsHealthy = λ s. Unit {0};
  read_some = λ s lba h c. refl;
  read_keeps = λ s lba j h c. refl;
  read_healthy = λ s lba h c. h;
  write_ok = λ s lba b h c. refl;
  write_healthy = λ s lba b h c. h;
  write_stores = λ s lba b h c e. stores s lba b;
  write_keeps = λ s lba j b h c k n. keeps_others s lba j b n;
  flush_keeps = λ s j h. refl;
  flush_healthy = λ s h. h;
}

abbrev pub empty_disk : Disk memory
empty_disk = record {
  drive = λ j. [];
  g_disk_count = 1;
  g_selected_disk = some 0;
  g_last_error = "ok";
  g_payload = replicate disk_payload_max 0;
}

pub healthy : memory_keeps.IsHealthy empty_disk.drive
unfolding memory_keeps
healthy = tt

pub large : 6144 ≤ memory_keeps.capacity
unfolding memory_keeps
large = omega arith

abbrev boot_blob : List ℕ
boot_blob = replicate 512 0

-- A kernel of three bytes.
abbrev kernel_blob : List ℕ
kernel_blob = 1 ∷ 2 ∷ 3 ∷ []

-- Sector 2048 is empty.
abbrev IsEmpty : (ℕ → List ℕ) → Type 0
IsEmpty s = s 2048 ≡ []

put_sector-IsEmpty :
    (s : ℕ → List ℕ) (lba : ℕ) (b : List ℕ) → lba < 2048 → IsEmpty s → IsEmpty (put_sector s lba b)
put_sector-IsEmpty s lba b lt h = keeps_others s lba 2048 b (omega (arith, lt)) ∙ h

disk_install_system-other_example :
    IsEmpty (disk_install_system memory empty_disk boot_blob kernel_blob 1).1.drive
disk_install_system-other_example =
    disk_install_system-other memory IsEmpty put_sector-IsEmpty (λ s h. h) empty_disk boot_blob
      kernel_blob 1 refl
