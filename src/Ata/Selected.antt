-- ===== src/Ata/Selected.antt =====
-- kernel/ata.c: sectors of the selected disk, where that is an IDE disk that answers.
use fur_os.Prelude.{ℕ, ◌<◌, ◌≡◌, ◌≢◌, ap, ◌∙◌, true, Option, none, List, arith, get_or}
use fur_os.Fs.Node.{Status}
use fur_os.Ata.Bus.{Ports, Line}
use fur_os.Ata.Ide.{
  IdeDevice, ide_device, ide_read_sector, ide_write_sector, ide_transfer_in, ide_transfer_out,
}
use fur_os.Ata.Ide.Pio.{Pio, Speaks, put_words}
use fur_os.Ata.Ide.Transfers.{IsServing}
use fur_os.Ata.Scan.{dev_ide, DeviceMap, Ata, with_line}
use fur_os.Ata.Sectors.{
  selected, read_kind, read_selected, ata_read_sector, write_kind, write_selected, ata_write_sector,
}

module _ (p : Ports) where
  -- The entry that is selected is the one of IDE device `i`, which is there.
  pub record IsIde (s : Ata p) (i : ℕ) : Type 0 where
    pub entry : DeviceMap
    pub selects : selected s.table ≡ (entry, none)
    pub kind : entry.kind ≡ dev_ide
    pub source : entry.source_index ≡ i
    pub bounded : i < 4
    pub present : (get_or s.g_ide_devices i (ide_device 0 0)).present ≡ true

  abbrev pub device_at : Ata p → ℕ → IdeDevice
  device_at s i = get_or s.g_ide_devices i (ide_device 0 0)

  ide_read_sector_present :
      (devices : List IdeDevice) (i lba : ℕ) (l : Line p)
      → i < 4
      → (get_or devices i (ide_device 0 0)).present ≡ true
      → ide_read_sector p devices i lba l
        ≡ ide_transfer_in p (get_or devices i (ide_device 0 0)) lba l
  unfolding ide_read_sector
  ide_read_sector_present devices i lba l lt h = ground (arith, lt, h)

  ide_write_sector_present :
      (devices : List IdeDevice) (i lba : ℕ) (buffer : List ℕ) (l : Line p)
      → i < 4
      → (get_or devices i (ide_device 0 0)).present ≡ true
      → ide_write_sector p devices i lba buffer l
        ≡ ide_transfer_out p (get_or devices i (ide_device 0 0)) lba buffer l
  unfolding ide_write_sector
  ide_write_sector_present devices i lba buffer l lt h = ground (arith, lt, h)

  pub read_ide :
      (ctx dba lba i : ℕ) (s : Ata p)
      → IsIde s i
      → ata_read_sector p ctx dba lba s ≡ (
        (ide_transfer_in p (device_at s i) lba s.hba.line).0,
        with_line p s (ide_transfer_in p (device_at s i) lba s.hba.line).1,
      )
  unfolding ata_read_sector read_selected read_kind
  read_ide ctx dba lba i s h =
      ap (λ e. read_selected p ctx dba lba s e.1 e.0) h.selects
      ∙ ap (λ k. read_kind p ctx dba lba s k h.entry.source_index) h.kind
      ∙ ap (λ j. read_kind p ctx dba lba s dev_ide j) h.source
      ∙ ap (λ (r : Option (List ℕ) × Line p). (r.0, with_line p s r.1))
          (ide_read_sector_present s.g_ide_devices i lba s.hba.line h.bounded h.present)

  pub write_ide :
      (ctx dba lba i : ℕ) (buffer : List ℕ) (s : Ata p)
      → IsIde s i
      → ata_write_sector p ctx dba lba buffer s ≡ (
        (ide_transfer_out p (device_at s i) lba buffer s.hba.line).0,
        with_line p s (ide_transfer_out p (device_at s i) lba buffer s.hba.line).1,
      )
  unfolding ata_write_sector write_selected write_kind
  write_ide ctx dba lba i buffer s h =
      ap (λ e. write_selected p ctx dba lba buffer s e.1 e.0) h.selects
      ∙ ap (λ k. write_kind p ctx dba lba buffer s k h.entry.source_index) h.kind
      ∙ ap (λ j. write_kind p ctx dba lba buffer s dev_ide j) h.source
      ∙ ap (λ (r : Status × Line p). (r.0, with_line p s r.1))
          (ide_write_sector_present s.g_ide_devices i lba buffer s.hba.line h.bounded h.present)

  -- A disk, as the driver leaves it after a transfer for sector `lba`.
  pub still_ide : (s : Ata p) (i : ℕ) (l : Line p) → IsIde s i → IsIde (with_line p s l) i
  still_ide s i l h = record {
    entry = h.entry;
    selects = h.selects;
    kind = h.kind;
    source = h.source;
    bounded = h.bounded;
    present = h.present;
  }

module _ (p : Ports) (ctx i : ℕ) (s : Ata p) (h : IsIde p s i)
    (k : Speaks p (device_at p s i).io_base (device_at p s i).slave)
    (v : IsServing p (device_at p s i).io_base (device_at p s i).slave k s.hba.line) where
  abbrev pub sectors : Ata p → ℕ → List ℕ
  sectors t = (k.view t.hba.line.hw).words

  -- The state after a write of `buffer` to the sector `lba`.
  abbrev pub written : ℕ → ℕ → List ℕ → Ata p
  written dba lba buffer = (ata_write_sector p ctx dba lba buffer s).1

  pub put_words_self : (f : ℕ → List ℕ) (a j : ℕ) (ws : List ℕ) → a ≡ j → put_words f a ws j ≡ ws
  put_words_self f a j ws e = ground (arith, e)

  pub put_words_other : (f : ℕ → List ℕ) (a j : ℕ) (ws : List ℕ) → a ≢ j → put_words f a ws j ≡ f j
  put_words_other f a j ws n = ground (arith, n)
