-- ===== src/Disk/SaveLoad.antt =====
-- `disk_load_fs` brings back what `disk_save_fs` put on a disk.
use fur_os.Prelude.{
  ℕ, zero, suc, ◌+◌, ◌*◌, ◌%◌, ◌^◌, ◌≤◌, ◌<◌, ◌≡◌, refl, sym, ◌∙◌, ap, true, some, List, [], ◌∷◌,
  ◌++◌, arith, length, take, drop, length-drop, length-append, take-append, length-replicate, set,
}
use fur_os.Prelude.Int.{is_zero}
use fur_os.KString.{kmemcpy, kstrncmp}
use fur_os.KString.Copy.{length-kmemcpy}
use fur_os.KString.Bytes.{
  IsBytes, nil-IsBytes, cons-IsBytes, append-IsBytes, drop-IsBytes, replicate-IsBytes,
  kmemcpy-IsBytes, all_bytes, all_bytes-IsBytes,
}
use fur_os.Fs.Image.Bytes.{HasBytes, image-IsBytes, put32-IsBytes}
use fur_os.Fs.Node.{Nodes, node_at, make_root, Status, ok, zeros}
use fur_os.Fs.Image.{put32, get32, fs_serialize, fs_deserialize}
use fur_os.Fs.Image.RoundTrip.{image, length-image, fs_serialize-image, deserialize-serialize}
use fur_os.Fs.System.{IsFileSystem}
use fur_os.Disk.Drive.{Drive, Keeps, IsSector}
use fur_os.Disk.Store.{
  Disk, disk_magic, checksum_from, checksum_bytes, header_sector, disk_available, sectors_of,
  save_sectors, save_payload, disk_save_fs, load_sectors, decode_payload, load_payload,
  disk_load_fs, disk_payload_max,
}
use fur_os.Disk.Sectors.{Saved, save_sectors-Saved, Loaded, load_sectors-Loaded, first_lba}

checksum_from-lt : (bytes : List ℕ) (sum : ℕ) → sum < 2 ^ 32 → checksum_from sum bytes < 2 ^ 32
unfolding checksum_from
checksum_from-lt [] sum h = h
checksum_from-lt (b ∷ rest) sum h = checksum_from-lt rest ((sum + b) % 2 ^ 32) (omega arith)

-- What `disk_load_fs` finds in the header that `disk_save_fs` wrote.
module _ (a : Drive) (bytes : List ℕ) where
  header_magic : is_zero (kstrncmp (header_sector a bytes) disk_magic 7) ≡ true
  unfolding kmemcpy zeros kstrncmp
  header_magic = refl

  header_version : get32 (drop 8 (header_sector a bytes)) ≡ 1
  unfolding kmemcpy zeros put32 get32
  header_version = refl

  header_size : length bytes < 2 ^ 32 → get32 (drop 12 (header_sector a bytes)) ≡ length bytes
  unfolding kmemcpy zeros put32 get32
  header_size h = omega arith

  header_checksum : get32 (drop 16 (header_sector a bytes)) ≡ checksum_bytes bytes
  unfolding kmemcpy zeros put32 get32 checksum_bytes
  header_checksum = omega (arith, checksum_from-lt bytes 0 (omega arith))

-- The steps of `disk_load_fs` that succeed.
module _ (a : Drive) (d : Disk a) (old : Nodes) where
  load_step :
      (header : List ℕ)
      → disk_available a d ≡ true
      → (a.read_sector d.drive 2048).0 ≡ some header
      → disk_load_fs a d old
        ≡ load_payload a (record d { drive = (a.read_sector d.drive 2048).1 }) old header
  load_step header live e = unfold disk_load_fs in ground (arith, e, live)

  payload_step :
      (header : List ℕ) (size sum : ℕ)
      → is_zero (kstrncmp header disk_magic 7) ≡ true
      → get32 (drop 8 header) ≡ 1
      → get32 (drop 12 header) ≡ size
      → get32 (drop 16 header) ≡ sum
      → 0 < size
      → size ≤ disk_payload_max
      → (load_sectors a (sectors_of a size) 0 d.g_payload d.drive).0 ≡ ok
      → load_payload a d old header
        ≡ decode_payload a
            (record d {
              drive = (load_sectors a (sectors_of a size) 0 d.g_payload d.drive).2;
              g_payload = (load_sectors a (sectors_of a size) 0 d.g_payload d.drive).1;
            })
            old
            size
            sum
  payload_step header size sum m v z c p h l = unfold load_payload in ground (arith, l)

  decode_step :
      (size : ℕ) (bytes : List ℕ) (t : Nodes)
      → take size d.g_payload ≡ bytes
      → fs_deserialize old bytes ≡ (ok, t)
      → decode_payload a d old size (checksum_bytes bytes)
        ≡ (ok, record d { g_last_error = "ok" }, t)
  decode_step size bytes t e h = unfold decode_payload in ground (arith, h)

take-take : (n m : ℕ) (xs : List ℕ) → n ≤ m → take n (take m xs) ≡ take n xs
take-take zero m xs h = refl
take-take (suc n) zero xs h = absurd (omega arith)
take-take (suc n) (suc m) [] h = refl
take-take (suc n) (suc m) (x ∷ xs) h = ap (λ r. x ∷ r) (take-take n m xs (omega arith))

header-IsSector : (a : Drive) (bytes : List ℕ) → IsSector (header_sector a bytes)
header-IsSector a bytes =
    let rest : List ℕ = 0 ∷ put32 1 (put32 (length bytes) (put32 (checksum_bytes bytes) [])) in
    let zeros_bytes : IsBytes (zeros 512) = unfold zeros in replicate-IsBytes 512 0 (omega arith) in
    record {
      size =
          length-kmemcpy (zeros 512) (disk_magic ++ rest) 20
          ∙ (unfold zeros in length-replicate {A = ℕ} 512 0);
      bytes = kmemcpy-IsBytes (zeros 512) (disk_magic ++ rest) 20 zeros_bytes (
          append-IsBytes disk_magic rest (all_bytes-IsBytes disk_magic (unfold all_bytes in refl)) (
            cons-IsBytes 0 _ (omega arith) (
              put32-IsBytes 1 _ (
                put32-IsBytes (length bytes) _
                  (put32-IsBytes (checksum_bytes bytes) [] nil-IsBytes)))));
    }

module _ (a : Drive) (keeps : Keeps a) (d : Disk a) (bytes : List ℕ)
    (healthy : keeps.IsHealthy d.drive) (big : 6144 ≤ keeps.capacity)
    (room : length d.g_payload ≡ disk_payload_max) (buffer : IsBytes d.g_payload)
    (plain : IsBytes bytes) (some_bytes : 0 < length bytes)
    (fits : length bytes ≤ disk_payload_max) where
  open keeps use {
    sector, IsHealthy, read_some, read_keeps, read_healthy, write_ok, write_healthy, write_stores,
    write_keeps, flush_keeps, flush_healthy,
  }

  -- The payload in memory, the state after the header, and after all sectors.
  abbrev payload : List ℕ
  payload = bytes ++ drop (length bytes) d.g_payload

  abbrev headed : a.State
  headed = (a.write_sector d.drive 2048 (header_sector a bytes)).1

  abbrev count : ℕ
  count = sectors_of a (length bytes)

  abbrev loop : Status × a.State
  loop = save_sectors a count 0 payload headed

  abbrev saved : Disk a
  saved = record d { g_payload = payload; drive = a.flush loop.1; g_last_error = "ok" }

  length-payload : length payload ≡ disk_payload_max
  length-payload = omega (
    arith,
    length-append bytes (drop (length bytes) d.g_payload),
    length-drop (length bytes) d.g_payload,
  )

  payload-IsBytes : IsBytes payload
  payload-IsBytes =
      append-IsBytes bytes (drop (length bytes) d.g_payload) plain
        (drop-IsBytes (length bytes) d.g_payload buffer)

  header_ok : (a.write_sector d.drive 2048 (header_sector a bytes)).0 ≡ ok
  header_ok = write_ok d.drive 2048 (header_sector a bytes) healthy (omega arith)

  loop-Saved : Saved a keeps count 0 payload headed loop
  loop-Saved =
      save_sectors-Saved a keeps count 0 payload headed
        (write_healthy d.drive 2048 (header_sector a bytes) healthy (omega arith)) (omega arith)
        (omega (arith, length-payload)) payload-IsBytes

  pub save_payload_lem : save_payload a d bytes ≡ (ok, saved)
  unfolding save_payload
  save_payload_lem = ground (arith, header_ok, loop-Saved.status)

  saved_healthy : IsHealthy saved.drive
  saved_healthy = flush_healthy loop.1 loop-Saved.healthy

  saved_header : sector saved.drive 2048 ≡ header_sector a bytes
  saved_header =
      flush_keeps loop.1 2048 loop-Saved.healthy
      ∙ loop-Saved.other 2048 (omega arith)
      ∙ write_stores d.drive 2048 (header_sector a bytes) healthy (omega arith)
          (header-IsSector a bytes)

  abbrev after_header : a.State
  after_header = (a.read_sector saved.drive 2048).1

  abbrev read : Status × List ℕ × a.State
  read = load_sectors a count 0 payload after_header

  read-Loaded : Loaded a keeps count 0 payload read
  read-Loaded =
      load_sectors-Loaded a keeps count 0 payload payload after_header
        (read_healthy saved.drive 2048 saved_healthy (omega arith)) (omega arith)
        (omega (arith, length-payload)) (omega (arith, length-payload)) refl
        (λ j b l.
          read_keeps saved.drive 2048 (first_lba + j) saved_healthy (omega arith)
          ∙ flush_keeps loop.1 (first_lba + j) loop-Saved.healthy
          ∙ loop-Saved.stored j b l)

  -- The payload that is read in begins with the bytes that were saved.
  read_bytes : take (length bytes) read.1 ≡ bytes
  read_bytes =
      sym (take-take (length bytes) ((0 + count) * 512) read.1 (omega arith))
      ∙ ap (take (length bytes)) read-Loaded.bytes
      ∙ take-take (length bytes) ((0 + count) * 512) payload (omega arith)
      ∙ take-append bytes (drop (length bytes) d.g_payload)

  -- Loading decodes the bytes that were saved.
  load_saved :
      (old : Nodes) (t : Nodes)
      → disk_available a d ≡ true
      → fs_deserialize old bytes ≡ (ok, t)
      → ((disk_load_fs a saved old).0 ≡ ok) × ((disk_load_fs a saved old).2 ≡ t)
  load_saved old t live h =
      let header : List ℕ = header_sector a bytes in
      let one : disk_load_fs a saved old
          ≡ load_payload a (record saved { drive = after_header }) old header =
        load_step a saved old header live
          (read_some saved.drive 2048 saved_healthy (omega arith) ∙ ap some saved_header) in
      let two : load_payload a (record saved { drive = after_header }) old header
          ≡ decode_payload a (record saved { drive = read.2; g_payload = read.1 }) old
              (length bytes) (checksum_bytes bytes) =
        payload_step a (record saved { drive = after_header }) old header (length bytes)
          (checksum_bytes bytes) (header_magic a bytes) (header_version a bytes)
          (header_size a bytes (omega arith)) (header_checksum a bytes) some_bytes fits
          read-Loaded.status in
      let three : decode_payload a (record saved { drive = read.2; g_payload = read.1 }) old
            (length bytes) (checksum_bytes bytes)
          ≡ (ok, record saved { drive = read.2; g_payload = read.1; g_last_error = "ok" }, t) =
        decode_step a (record saved { drive = read.2; g_payload = read.1 }) old (length bytes) bytes
          t read_bytes h in
      rw (one ∙ two ∙ three) (refl, refl)

-- On a healthy disk of at least 6144 sectors that is selected, with a payload buffer of full size
-- that holds bytes, saving a file system whose names and contents are bytes succeeds, and loading
-- then succeeds too, whatever the table holds: it is the table that was saved, with the root as
-- `fs_init` sets it.
pub load-save :
    (a : Drive) (keeps : Keeps a) (d : Disk a) (t old : Nodes)
    → keeps.IsHealthy d.drive
    → 6144 ≤ keeps.capacity
    → disk_available a d ≡ true
    → length d.g_payload ≡ disk_payload_max
    → IsBytes d.g_payload
    → IsFileSystem t
    → HasBytes t
    → ((disk_save_fs a d t).0 ≡ ok)
      × ((disk_load_fs a (disk_save_fs a d t).1 old).0 ≡ ok)
      × ((disk_load_fs a (disk_save_fs a d t).1 old).2 ≡ set t 0 (make_root (node_at t 0)))
load-save a keeps d t old healthy big live room buffer v h =
    let bytes : List ℕ = image t in
    let size : length bytes ≡ 530192 = length-image t v in
    let e : fs_serialize t disk_payload_max ≡ some bytes =
      fs_serialize-image t disk_payload_max (omega arith) in
    let back : fs_deserialize old bytes ≡ (ok, set t 0 (make_root (node_at t 0))) =
      deserialize-serialize old t disk_payload_max bytes v e in
    let one : disk_save_fs a d t ≡ save_payload a d bytes =
      unfold disk_save_fs in ground (arith, e, live) in
    let plain : IsBytes bytes = image-IsBytes t h in
    let two =
      save_payload_lem a keeps d bytes healthy big room buffer plain (omega arith) (omega arith) in
    let loaded =
      load_saved a keeps d bytes healthy big room buffer plain (omega arith) (omega arith) old
        (set t 0 (make_root (node_at t 0))) live back in
    rw (one ∙ two) (refl, loaded.0, loaded.1)
