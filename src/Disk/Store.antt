-- ===== src/Disk/Store.antt =====
-- kernel/disk.c: selection, and saving and loading the file system.
use fur_os.Prelude.{
  ℕ, zero, suc, ◌+◌, ◌-◌, ◌*◌, ◌/◌, ◌%◌, ◌^◌, Bool, true, false, ◌&&◌, ◌||◌, not, Option, none,
  some, List, [], ◌∷◌, ◌++◌, String, length, take, drop, ltb, ◌==◌, if◌then◌else◌, codes,
}
use fur_os.Prelude.Int.{is_zero}
use fur_os.KString.{kmemcpy, kstrncmp}
use fur_os.Fs.Node.{Nodes, Status, ok, fail, fs_init, zeros}
use fur_os.Fs.MakePath.{copy_at}
use fur_os.Fs.Image.{put32, get32, fs_serialize, fs_deserialize}
use fur_os.Disk.Drive.{Drive, DeviceInfo}

abbrev pub disk_start_lba : ℕ
disk_start_lba = 2048

abbrev pub disk_total_sectors : ℕ
disk_total_sectors = 4096

abbrev pub sector_size : ℕ
sector_size = 512

abbrev pub disk_payload_max : ℕ
disk_payload_max = (disk_total_sectors - 1) * sector_size

-- "FURDSK1"
abbrev pub disk_magic : List ℕ
disk_magic = codes "FURDSK1"

-- The loop of `checksum_bytes`.
unfoldable pub checksum_from : ℕ → List ℕ → ℕ
checksum_from sum [] = sum
checksum_from sum (b ∷ rest) = checksum_from ((sum + b) % 2 ^ 32) rest

unfoldable pub checksum_bytes : List ℕ → ℕ
checksum_bytes bytes = checksum_from 0 bytes

module _ (a : Drive) where
  open a use {
    State, scan, selected_device, get_info, select_device, read_sector, write_sector, flush,
  }

  -- The static variables of disk.c; `g_sector` is filled before each use.
  pub record Disk : Type 0 where
    pub drive : State
    pub g_disk_count : ℕ
    pub g_selected_disk : Option ℕ
    pub g_last_error : String
    pub g_payload : List ℕ

  abbrev pub is_some : Option ℕ → Bool
  is_some none = false
  is_some (some i) = true

  -- `none` where the scan does not return.
  unfoldable pub disk_init : Disk → Option Disk
  disk_init d = elim (scan d.drive) [
    | none ↦ none
    | some (count, s) ↦ some (record d {
      drive = s;
      g_disk_count = count;
      g_selected_disk = selected_device s;
      g_last_error = if ltb 0 count && is_some (selected_device s) then "ok" else a.last_error s;
    })
  ]

  abbrev pub disk_available : Disk → Bool
  disk_available d = is_some d.g_selected_disk

  abbrev pub disk_count : Disk → ℕ
  disk_count d = d.g_disk_count

  abbrev pub disk_get_info : Disk → ℕ → Option DeviceInfo
  disk_get_info d index = get_info d.drive index

  unfoldable pub disk_select : Disk → ℕ → Status × Disk
  disk_select d index =
      let (status, s) = select_device d.drive index in
      elim status [
        | fail ↦ (fail, record d { drive = s; g_last_error = "invalid or missing disk index" })
        | ok ↦ (ok, record d { drive = s; g_selected_disk = some index; g_last_error = "ok" })
      ]

  -- A call that returns -1 and leaves a message.
  abbrev pub failed : Disk → String → Status × Disk
  failed d message = (fail, record d { g_last_error = message })

  -- The sector with the header of the saved payload.
  abbrev pub header_sector : List ℕ → List ℕ
  header_sector bytes =
      kmemcpy (zeros sector_size)
        (disk_magic ++ (0 ∷ put32 1 (put32 (length bytes) (put32 (checksum_bytes bytes) [])))) 20

  -- g_payload + (i * SECTOR_SIZE), as far as one sector reads it
  abbrev pub chunk : List ℕ → ℕ → List ℕ
  chunk payload i = take sector_size (drop (i * sector_size) payload)

  -- The loop of `disk_save_fs`, with `sectors - i` rounds left.
  unfoldable pub save_sectors : ℕ → ℕ → List ℕ → State → Status × State
  save_sectors zero i payload s = (ok, s)
  save_sectors (suc k) i payload s =
      let w = write_sector s (disk_start_lba + 1 + i) (chunk payload i) in
      elim (w.0) [ fail ↦ (fail, w.1) | ok ↦ save_sectors k (suc i) payload w.1 ]

  abbrev pub sectors_of : ℕ → ℕ
  sectors_of size = (size + sector_size - 1) / sector_size

  -- `disk_save_fs` once the payload is encoded.
  unfoldable pub save_payload : Disk → List ℕ → Status × Disk
  save_payload d bytes =
      let payload = bytes ++ drop (length bytes) d.g_payload in
      let d' = record d { g_payload = payload } in
      let w = write_sector d.drive disk_start_lba (header_sector bytes) in
      elim (w.0) [
        | fail ↦ failed (record d' { drive = w.1 }) (a.last_error w.1)
        | ok ↦
            let l = save_sectors (sectors_of (length bytes)) 0 payload w.1 in
            elim (l.0) [
              | fail ↦ failed (record d' { drive = l.1 }) (a.last_error l.1)
              | ok ↦ (ok, record d' { drive = flush l.1; g_last_error = "ok" })
            ]
      ]

  unfoldable pub disk_save_fs : Disk → Nodes → Status × Disk
  disk_save_fs d t =
      if not (disk_available d)
      then failed d "disk unavailable"
      else elim (fs_serialize t disk_payload_max) [
        | none ↦ failed d "filesystem encode failed"
        | some bytes ↦ save_payload d bytes
      ]

  -- The loop of `disk_load_fs`: the payload and the drive.
  unfoldable pub load_sectors : ℕ → ℕ → List ℕ → State → Status × List ℕ × State
  load_sectors zero i payload s = (ok, payload, s)
  load_sectors (suc k) i payload s =
      let r = read_sector s (disk_start_lba + 1 + i) in
      elim (r.0) [
        | none ↦ (fail, payload, r.1)
        | some bytes ↦
            load_sectors k (suc i) (copy_at payload (i * sector_size) bytes sector_size) r.1
      ]

  -- `disk_load_fs` once the sectors are read.
  unfoldable pub decode_payload : Disk → Nodes → ℕ → ℕ → Status × Disk × Nodes
  decode_payload d t size checksum =
      if not (checksum_bytes (take size d.g_payload) == checksum)
      then (fail, record d { g_last_error = "checksum mismatch" }, t)
      else (let r = fs_deserialize t (take size d.g_payload) in
          elim (r.0) [
            | fail ↦ (fail, record d { g_last_error = "filesystem decode failed" }, r.1)
            | ok ↦ (ok, record d { g_last_error = "ok" }, r.1)
          ])

  -- `disk_load_fs` once the header sector is read.
  unfoldable pub load_payload : Disk → Nodes → List ℕ → Status × Disk × Nodes
  load_payload d t header =
      let size = get32 (drop 12 header) in
      if not (is_zero (kstrncmp header disk_magic 7)) || not (get32 (drop 8 header) == 1)
      then (fail, record d { g_last_error = "not installed" }, t)
      else if size == 0 || ltb disk_payload_max size
      then (fail, record d { g_last_error = "invalid payload size" }, t)
      else (let l = load_sectors (sectors_of size) 0 d.g_payload d.drive in
          elim (l.0) [
            | fail ↦ (
              fail,
              record d { drive = l.2; g_payload = l.1; g_last_error = a.last_error l.2 },
              t,
            )
            | ok ↦
                decode_payload (record d { drive = l.2; g_payload = l.1 }) t size
                  (get32 (drop 16 header))
          ])

  unfoldable pub disk_load_fs : Disk → Nodes → Status × Disk × Nodes
  disk_load_fs d t =
      if not (disk_available d)
      then (fail, record d { g_last_error = "disk unavailable" }, t)
      else (let r = read_sector d.drive disk_start_lba in
          elim (r.0) [
            | none ↦ (fail, record d { drive = r.1; g_last_error = a.last_error r.1 }, t)
            | some header ↦ load_payload (record d { drive = r.1 }) t header
          ])

  unfoldable pub disk_format_fs : Disk → Status × Disk × Nodes
  disk_format_fs d =
      let r = disk_save_fs d fs_init in
      elim (r.0) [
        | fail ↦ (fail, r.1, fs_init)
        | ok ↦ (ok, record (r.1) { g_last_error = "ok" }, fs_init)
      ]
