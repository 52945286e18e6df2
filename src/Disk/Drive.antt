-- ===== src/Disk/Drive.antt =====
-- kernel/ata.h: what disk.c uses of the drives, as an interface, and what it relies on.
use fur_os.Prelude.{ℕ, ◌<◌, ◌≡◌, ◌≢◌, Bool, Option, some, List, String, length}
use fur_os.KString.Bytes.{IsBytes}
use fur_os.Fs.Node.{Status, ok}

-- `struct ata_device_info`, and `struct disk_info`, which has the same fields.
pub record DeviceInfo : Type 0 where
  pub present : Bool
  pub index : ℕ
  pub interface_type : ℕ
  pub io_base : ℕ
  pub slave : ℕ
  pub sectors28 : ℕ
  pub model : List ℕ

-- The `ata_` functions over the state of the controllers; `none` is a negative result, but for
-- `scan`, where it says that `ata_scan` does not return.
pub record Drive : Type 1 where
  pub State : Type 0
  pub scan : State → Option (ℕ × State)
  pub selected_device : State → Option ℕ
  pub get_info : State → ℕ → Option DeviceInfo
  pub select_device : State → ℕ → Status × State
  pub read_sector : State → ℕ → Option (List ℕ) × State
  pub write_sector : State → ℕ → List ℕ → Status × State
  pub flush : State → State
  pub last_error : State → String

-- The contents of a sector: 512 bytes.
pub record IsSector (b : List ℕ) : Type 0 where
  pub size : length b ≡ 512
  pub bytes : IsBytes b

-- A drive that keeps its sectors, of which it has `capacity`: what a read delivers, what a write
-- changes, and what works while the drive is healthy. Ata/Drive fills it with the driver of
-- kernel/ata.c.
pub record Keeps (a : Drive) : Type 1 where
  pub capacity : ℕ
  pub sector : a.State → ℕ → List ℕ
  pub IsHealthy : a.State → Type 0
  pub read_some :
      (s : a.State) (lba : ℕ)
      → IsHealthy s
      → lba < capacity
      → (a.read_sector s lba).0 ≡ some (sector s lba)
  pub read_keeps :
      (s : a.State) (lba j : ℕ)
      → IsHealthy s
      → lba < capacity
      → sector (a.read_sector s lba).1 j ≡ sector s j
  pub read_healthy :
      (s : a.State) (lba : ℕ) → IsHealthy s → lba < capacity → IsHealthy (a.read_sector s lba).1
  pub write_ok :
      (s : a.State) (lba : ℕ) (b : List ℕ)
      → IsHealthy s
      → lba < capacity
      → (a.write_sector s lba b).0 ≡ ok
  pub write_healthy :
      (s : a.State) (lba : ℕ) (b : List ℕ)
      → IsHealthy s
      → lba < capacity
      → IsHealthy (a.write_sector s lba b).1
  pub write_stores :
      (s : a.State) (lba : ℕ) (b : List ℕ)
      → IsHealthy s
      → lba < capacity
      → IsSector b
      → sector (a.write_sector s lba b).1 lba ≡ b
  pub write_keeps :
      (s : a.State) (lba j : ℕ) (b : List ℕ)
      → IsHealthy s
      → lba < capacity
      → j < capacity
      → lba ≢ j
      → sector (a.write_sector s lba b).1 j ≡ sector s j
  pub flush_keeps : (s : a.State) (j : ℕ) → IsHealthy s → sector (a.flush s) j ≡ sector s j
  pub flush_healthy : (s : a.State) → IsHealthy s → IsHealthy (a.flush s)
