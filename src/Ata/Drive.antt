-- ===== src/Ata/Drive.antt =====
-- kernel/ata.c as the drives of disk.c, and a selected IDE disk as one that keeps its sectors.
use fur_os.Prelude.{
  ℕ, ◌+◌, ◌*◌, ◌%◌, ◌^◌, ◌<◌, ◌≡◌, ◌≢◌, refl, sym, ap, subst, ◌∙◌, true, Option, none, some, List,
  length, arith, ◌==◌, if◌then◌else◌, branch,
}
use fur_os.Fs.Node.{Status, ok, zeros}
use fur_os.Disk.Drive.{Drive, DeviceInfo, IsSector, Keeps}
use fur_os.Ata.Bus.{Ports, Line}
use fur_os.Ata.Ide.{IdeDevice, ide_transfer_in, ide_transfer_out, ide_flush_cache, to_bytes}
use fur_os.Ata.Ide.Pio.{Pio, Speaks, put_words}
use fur_os.Ata.Ide.Transfers.{
  words_of, length-words_of, IsServing, ide_transfer_in-serves, ide_transfer_out-serves,
}
use fur_os.Ata.Ide.Flush.{ide_flush_cache-Flushed}
use fur_os.Ata.Ide.Bytes.{to_bytes-words_of}
use fur_os.Ata.Scan.{Ata, with_line, ata_scan}
use fur_os.Ata.Sectors.{
  AtaDeviceInfo, ata_get_info, ata_select_device, ata_selected_device, ata_read_sector,
  ata_write_sector, ata_flush, ata_last_error,
}
use fur_os.Ata.Selected.{IsIde, device_at, read_ide, write_ide, still_ide}

-- ATA_IFACE_IDE and ATA_IFACE_AHCI are 0 and 1.
abbrev device_info : AtaDeviceInfo → DeviceInfo
device_info info = record {
  present = true;
  index = info.index;
  interface_type = if info.ahci then 1 else 0;
  io_base = info.io_base;
  slave = info.slave;
  sectors28 = info.sectors28;
  model = info.model;
}

-- The `ata_` functions; `rounds` is that of the probe, and `dba` the address of the caller's buffer. A
-- scan for which the rounds do not suffice counts as one that does not return.
abbrev pub ata_drive : (p : Ports) → ℕ → ℕ → ℕ → Drive
ata_drive p rounds ctx dba = record {
  State = Ata p;
  scan = λ s. elim (ata_scan p rounds ctx s) [
    | none ↦ none
    | some found ↦ some (found.table.g_device_count, found)
  ];
  selected_device = λ s. ata_selected_device s.table;
  get_info = λ s index. elim (ata_get_info s.table index (zeros 41)) [
    | none ↦ none
    | some info ↦ some (device_info info)
  ];
  select_device =
      λ s index. let r = ata_select_device s.table index in (r.0, record s { table = r.1 });
  read_sector = λ s lba. ata_read_sector p ctx dba lba s;
  write_sector = λ s lba b. ata_write_sector p ctx dba lba b s;
  flush = λ s. (ata_flush p s).1;
  last_error = ata_last_error p;
}

module _ (p : Ports) (rounds ctx dba i : ℕ) (dev : IdeDevice)
    (k : Speaks p dev.io_base dev.slave) where
  -- IDE device `i`, which is `dev`, is selected and ready.
  pub record IsReady (s : Ata p) : Type 0 where
    pub ide : IsIde p s i
    pub device : device_at p s i ≡ dev
    pub serving : IsServing p dev.io_base dev.slave k s.hba.line

  abbrev words : Ata p → ℕ → List ℕ
  words s = (k.view s.hba.line.hw).words

  module _ (s : Ata p) (h : IsReady s) where
    present : dev.present ≡ true
    present = subst (λ (d : IdeDevice). d.present ≡ true) h.device h.ide.present

    read_eq :
        (lba : ℕ)
        → ata_read_sector p ctx dba lba s ≡ (
          (ide_transfer_in p dev lba s.hba.line).0,
          with_line p s (ide_transfer_in p dev lba s.hba.line).1,
        )
    read_eq lba =
        read_ide p ctx dba lba i s h.ide
        ∙ ap
            (λ d. (
              (ide_transfer_in p d lba s.hba.line).0,
              with_line p s (ide_transfer_in p d lba s.hba.line).1,
            ))
            h.device

    write_eq :
        (lba : ℕ) (b : List ℕ)
        → ata_write_sector p ctx dba lba b s ≡ (
          (ide_transfer_out p dev lba b s.hba.line).0,
          with_line p s (ide_transfer_out p dev lba b s.hba.line).1,
        )
    write_eq lba b =
        write_ide p ctx dba lba i b s h.ide
        ∙ ap
            (λ d. (
              (ide_transfer_out p d lba b s.hba.line).0,
              with_line p s (ide_transfer_out p d lba b s.hba.line).1,
            ))
            h.device

    flush_eq : (ata_flush p s).1 ≡ with_line p s (ide_flush_cache p s.g_ide_devices i s.hba.line).1
    flush_eq =
        let e = h.ide.selects in
        let f = h.ide.kind in let g = h.ide.source in unfold ata_flush in ground (arith, e, f, g)

    -- The state with another line, on which the disk is ready too.
    moved : (l : Line p) → IsServing p dev.io_base dev.slave k l → IsReady (with_line p s l)
    moved l v = record { ide = still_ide p s i l h.ide; device = h.device; serving = v }

    low : (lba : ℕ) → lba < k.capacity → lba % 2 ^ 28 ≡ lba
    low lba lt = omega (arith, lt, k.addressable)

    low-lt : (lba : ℕ) → lba < k.capacity → lba % 2 ^ 28 < k.capacity
    low-lt lba lt = omega (arith, lt)

    read_some :
        (lba : ℕ)
        → lba < k.capacity
        → (ata_read_sector p ctx dba lba s).0 ≡ some (to_bytes (words s lba))
    read_some lba lt =
        let r = ide_transfer_in-serves p dev k lba s.hba.line h.serving (low-lt lba lt) in
        ap (λ r. r.0) (read_eq lba) ∙ r.0 ∙ ap (λ j. some (to_bytes (words s j))) (low lba lt)

    read_words : (lba : ℕ) → lba < k.capacity → words (ata_read_sector p ctx dba lba s).1 ≡ words s
    read_words lba lt =
        let r = ide_transfer_in-serves p dev k lba s.hba.line h.serving (low-lt lba lt) in
        ap (λ r. words r.1) (read_eq lba) ∙ ap (λ (v : Pio). v.words) r.1

    read-IsReady : (lba : ℕ) → lba < k.capacity → IsReady (ata_read_sector p ctx dba lba s).1
    read-IsReady lba lt =
        let (a, q) = ide_transfer_in-serves p dev k lba s.hba.line h.serving (low-lt lba lt) in
        subst (λ (r : Option (List ℕ) × Ata p). IsReady r.1) (sym (read_eq lba))
          (moved (ide_transfer_in p dev lba s.hba.line).1 (record {
            phase = rw q refl;
            patient = rw q (omega arith);
            sound = rw q h.serving.sound;
            whole = rw q h.serving.whole;
          }))

    write_done :
        (lba : ℕ) (b : List ℕ) → lba < k.capacity → (ata_write_sector p ctx dba lba b s).0 ≡ ok
    write_done lba b lt =
        let r = ide_transfer_out-serves p dev k lba b s.hba.line h.serving (low-lt lba lt) in
        ap (λ r. r.0) (write_eq lba b) ∙ r.0

    write_words :
        (lba : ℕ) (b : List ℕ)
        → lba < k.capacity
        → words (ata_write_sector p ctx dba lba b s).1 ≡ put_words (words s) lba (words_of 256 0 b)
    write_words lba b lt =
        let r = ide_transfer_out-serves p dev k lba b s.hba.line h.serving (low-lt lba lt) in
        ap (λ r. words r.1) (write_eq lba b)
        ∙ ap (λ (v : Pio). v.words) r.1
        ∙ ap (λ j. put_words (words s) j (words_of 256 0 b)) (low lba lt)

    put_whole :
        (n : ℕ) (b : List ℕ) (j : ℕ)
        → j < k.capacity
        → length (put_words (words s) n (words_of 256 0 b) j) ≡ 256
    put_whole n b j lt =
        branch (λ ws. length ws ≡ 256) (n == j) (λ e. length-words_of 256 0 b)
          (λ e. h.serving.whole j lt)

    write-IsReady :
        (lba : ℕ) (b : List ℕ) → lba < k.capacity → IsReady (ata_write_sector p ctx dba lba b s).1
    write-IsReady lba b lt =
        let (a, q) = ide_transfer_out-serves p dev k lba b s.hba.line h.serving (low-lt lba lt) in
        subst (λ (r : Status × Ata p). IsReady r.1) (sym (write_eq lba b))
          (moved (ide_transfer_out p dev lba b s.hba.line).1 (record {
            phase = rw q refl;
            patient = rw q (omega arith);
            sound = rw q h.serving.sound;
            whole = rw q (put_whole (lba % 2 ^ 28) b);
          }))

    write_stores :
        (lba : ℕ) (b : List ℕ)
        → lba < k.capacity
        → IsSector b
        → to_bytes (words (ata_write_sector p ctx dba lba b s).1 lba) ≡ b
    write_stores lba b lt v =
        let same : put_words (words s) lba (words_of 256 0 b) lba ≡ words_of 256 0 b =
          ground arith in
        ap (λ f. to_bytes (f lba)) (write_words lba b lt)
        ∙ ap to_bytes same
        ∙ to_bytes-words_of 256 b (omega (arith, v.size)) v.bytes

    write_keeps :
        (lba j : ℕ) (b : List ℕ)
        → lba < k.capacity
        → lba ≢ j
        → to_bytes (words (ata_write_sector p ctx dba lba b s).1 j) ≡ to_bytes (words s j)
    write_keeps lba j b lt n =
        let same : put_words (words s) lba (words_of 256 0 b) j ≡ words s j = ground (arith, n) in
        ap (λ f. to_bytes (f j)) (write_words lba b lt) ∙ ap to_bytes same

    flush_view :
        k.view (ide_flush_cache p s.g_ide_devices i s.hba.line).1.hw
        ≡ record (k.view s.hba.line.hw) {
          regs = record ((k.view s.hba.line.hw).regs) { select = 0xA0 + dev.slave * 16 };
          busy = 0;
        }
    flush_view =
        ide_flush_cache-Flushed p dev k s.g_ide_devices i s.hba.line h.ide.bounded h.device present
          h.serving

    flush-IsReady : IsReady (ata_flush p s).1
    flush-IsReady = subst IsReady (sym flush_eq) (
        moved (ide_flush_cache p s.g_ide_devices i s.hba.line).1 (record {
          phase = rw flush_view h.serving.phase;
          patient = rw flush_view (omega arith);
          sound = rw flush_view h.serving.sound;
          whole = rw flush_view h.serving.whole;
        }))

    flush_words : words (ata_flush p s).1 ≡ words s
    flush_words = ap words flush_eq ∙ ap (λ (v : Pio). v.words) flush_view

  -- A selected IDE disk that keeps to the ATA protocol and is ready keeps its sectors, as disk.c wants.
  pub ata_drive-Keeps : Keeps (ata_drive p rounds ctx dba)
  ata_drive-Keeps = record {
    capacity = k.capacity;
    sector = λ s j. to_bytes (words s j);
    IsHealthy = IsReady;
    read_some = λ s lba h lt. read_some s h lba lt;
    read_keeps = λ s lba j h lt. ap (λ f. to_bytes (f j)) (read_words s h lba lt);
    read_healthy = λ s lba h lt. read-IsReady s h lba lt;
    write_ok = λ s lba b h lt. write_done s h lba b lt;
    write_healthy = λ s lba b h lt. write-IsReady s h lba b lt;
    write_stores = λ s lba b h lt v. write_stores s h lba b lt v;
    write_keeps = λ s lba j b h lt lt' n. write_keeps s h lba j b lt n;
    flush_keeps = λ s j h. ap (λ f. to_bytes (f j)) (flush_words s h);
    flush_healthy = λ s h. flush-IsReady s h;
  }

  pub ready_healthy : (s : Ata p) → IsReady s → ata_drive-Keeps.IsHealthy s
  unfolding ata_drive-Keeps
  ready_healthy s h = h

  pub same_capacity : ata_drive-Keeps.capacity ≡ k.capacity
  unfolding ata_drive-Keeps
  same_capacity = refl
