-- ===== src/Ata/Sectors.antt =====
-- kernel/ata.c: what the rest of the kernel calls of the driver, on the disk that is selected.
use fur_os.Prelude.{
  ℕ, Bool, true, false, Option, none, some, List, String, leb, if◌then◌else◌, not, get_or,
}
use fur_os.KString.{kstrcpy}
use fur_os.Fs.Node.{Status, ok, fail}
use fur_os.Ata.Bus.{Ports, error_ok, with_error}
use fur_os.Ata.Ide.{ide_read_sector, ide_write_sector, ide_flush_cache}
use fur_os.Ata.Ahci.{store_memory, ahci_issue}
use fur_os.Ata.Scan.Controllers.{no_device}
use fur_os.Ata.Scan.{
  DeviceKind, dev_none, dev_ide, dev_ahci, DeviceMap, blank_entry, Devices, Ata, with_line,
}

-- `struct ata_device_info`; `ahci` is what `interface_type` tells.
pub record AtaDeviceInfo : Type 0 where
  pub index : ℕ
  pub ahci : Bool
  pub io_base : ℕ
  pub slave : ℕ
  pub sectors28 : ℕ
  pub model : List ℕ

abbrev is_ahci : DeviceKind → Bool
is_ahci dev_none = false
is_ahci dev_ide = false
is_ahci dev_ahci = true

-- `out->model` is a buffer of 41 bytes.
unfoldable pub ata_get_info : Devices → ℕ → List ℕ → Option AtaDeviceInfo
ata_get_info t index model =
    let entry = get_or t.g_devices index blank_entry in
    if leb t.g_device_count index
    then none
    else if not entry.present
    then none
    else some (record {
      index = index;
      ahci = is_ahci entry.kind;
      io_base = entry.io_base;
      slave = entry.slave;
      sectors28 = entry.sectors28;
      model = kstrcpy model entry.model;
    })

unfoldable pub ata_select_device : Devices → ℕ → Status × Devices
ata_select_device t index =
    if leb t.g_device_count index
    then (fail, t)
    else if not (get_or t.g_devices index blank_entry).present
    then (fail, t)
    else (ok, record t { g_selected_device = some index })

unfoldable pub ata_selected_device : Devices → Option ℕ
ata_selected_device t = t.g_selected_device

-- The entry that is selected, or the message where there is none.
unfoldable pub selected : Devices → DeviceMap × Option String
selected t = elim (t.g_selected_device) [
  | none ↦ (blank_entry, some "no selected disk")
  | some i ↦
      let entry = get_or t.g_devices i blank_entry in
      if leb t.g_device_count i
      then (entry, some "no selected disk")
      else if entry.present
      then (entry, none)
      else (entry, some "selected disk missing")
]

pub record AtaDebugState : Type 0 where
  pub pci_host_id : ℕ
  pub pci_ahci_slot_id : ℕ
  pub pci_ahci_slot_class : ℕ
  pub pci_ahci_slot_bar5 : ℕ
  pub ahci_controllers_seen : ℕ
  pub ahci_ports_considered : ℕ
  pub ahci_devices_found : ℕ

module _ (p : Ports) where
  -- A read by an AHCI disk, to the memory at `dba`.
  unfoldable pub ahci_read_sector : ℕ → Ata p → ℕ → ℕ → ℕ → Option (List ℕ) × Ata p
  ahci_read_sector ctx s index dba lba =
      let issued =
        ahci_issue p ctx index (get_or s.hba.g_ahci_devices index no_device) 0x25 lba 1 1 false 0x40
          dba s.hba.line in
      elim (issued.0) [
        | fail ↦ (none, with_line p s (issued.1))
        | ok ↦ (some (p.load_bytes (issued.1).hw dba 512), with_line p s (issued.1))
      ]

  -- A write by an AHCI disk, from the memory at `dba`, where the buffer is.
  unfoldable pub ahci_write_sector : ℕ → Ata p → ℕ → ℕ → ℕ → List ℕ → Status × Ata p
  ahci_write_sector ctx s index dba lba buffer =
      let issued =
        ahci_issue p ctx index (get_or s.hba.g_ahci_devices index no_device) 0x35 lba 1 1 true 0x40
          dba (store_memory p s.hba.line dba buffer) in
      (issued.0, with_line p s (issued.1))

  abbrev refused : Ata p → String → Ata p
  refused s msg = with_line p s (with_error p s.hba.line msg).1

  -- The tests of `entry->kind` in `ata_read_sector`, for the device `index` of that kind.
  unfoldable pub read_kind : ℕ → ℕ → ℕ → Ata p → DeviceKind → ℕ → Option (List ℕ) × Ata p
  read_kind ctx dba lba s dev_none index = (none, refused s "unsupported disk interface")
  read_kind ctx dba lba s dev_ide index =
      let r = ide_read_sector p s.g_ide_devices index lba s.hba.line in (r.0, with_line p s (r.1))
  read_kind ctx dba lba s dev_ahci index = ahci_read_sector ctx s index dba lba

  unfoldable pub read_selected :
      ℕ → ℕ → ℕ → Ata p → Option String → DeviceMap → Option (List ℕ) × Ata p
  read_selected ctx dba lba s (some msg) entry = (none, refused s msg)
  read_selected ctx dba lba s none entry = read_kind ctx dba lba s entry.kind entry.source_index

  -- The bytes of the sector, which the source leaves in the buffer at `dba`.
  unfoldable pub ata_read_sector : ℕ → ℕ → ℕ → Ata p → Option (List ℕ) × Ata p
  ata_read_sector ctx dba lba s =
      read_selected ctx dba lba s (selected s.table).1 (selected s.table).0

  -- The same tests in `ata_write_sector`.
  unfoldable pub write_kind : ℕ → ℕ → ℕ → List ℕ → Ata p → DeviceKind → ℕ → Status × Ata p
  write_kind ctx dba lba buffer s dev_none index = (fail, refused s "unsupported disk interface")
  write_kind ctx dba lba buffer s dev_ide index =
      let r = ide_write_sector p s.g_ide_devices index lba buffer s.hba.line in
      (r.0, with_line p s (r.1))
  write_kind ctx dba lba buffer s dev_ahci index = ahci_write_sector ctx s index dba lba buffer

  unfoldable pub write_selected :
      ℕ → ℕ → ℕ → List ℕ → Ata p → Option String → DeviceMap → Status × Ata p
  write_selected ctx dba lba buffer s (some msg) entry = (fail, refused s msg)
  write_selected ctx dba lba buffer s none entry =
      write_kind ctx dba lba buffer s entry.kind entry.source_index

  unfoldable pub ata_write_sector : ℕ → ℕ → ℕ → List ℕ → Ata p → Status × Ata p
  ata_write_sector ctx dba lba buffer s =
      write_selected ctx dba lba buffer s (selected s.table).1 (selected s.table).0

  unfoldable pub ata_flush : Ata p → Status × Ata p
  ata_flush s = elim ((selected s.table).1) [
    | some msg ↦ (fail, refused s msg)
    | none ↦
        let entry = (selected s.table).0 in
        elim (entry.kind) [
          | dev_none ↦ (ok, with_line p s (error_ok p s.hba.line))
          | dev_ide ↦
              let r = ide_flush_cache p s.g_ide_devices entry.source_index s.hba.line in
              (r.0, with_line p s (r.1))
          | dev_ahci ↦ (ok, with_line p s (error_ok p s.hba.line))
        ]
  ]

  unfoldable pub ata_last_error : Ata p → String
  ata_last_error s = s.hba.line.g_last_error

  unfoldable pub ata_last_status : Ata p → ℕ
  ata_last_status s = s.hba.line.g_last_status

  unfoldable pub ata_last_error_reg : Ata p → ℕ
  ata_last_error_reg s = s.hba.line.g_last_error_reg

  unfoldable pub ata_debug_state : Ata p → AtaDebugState
  ata_debug_state s = record {
    pci_host_id = s.seen.pci_host_id;
    pci_ahci_slot_id = s.seen.slot13_id;
    pci_ahci_slot_class = s.seen.slot13_class;
    pci_ahci_slot_bar5 = s.seen.slot13_bar5;
    ahci_controllers_seen = s.hba.g_ahci_controllers_seen;
    ahci_ports_considered = s.hba.g_ahci_ports_considered;
    ahci_devices_found = s.hba.g_ahci_count;
  }
