-- ===== src/Ata/Scan.antt =====
-- kernel/ata.c: the search for disks, and the table of those that were found.
pub mod Controllers
pub mod Unidentified
pub mod Recorded
pub mod Listed
pub mod Mapped
use fur_os.Prelude.{
  ℕ, zero, suc, ◌+◌, ◌*◌, ◌%◌, ◌^◌, Bool, true, false, ◌&&◌, Option, none, some, List, codes,
  String, leb, ltb, ◌==◌, if◌then◌else◌, get_or, set, replicate,
}
use fur_os.KString.{kstrcpy}
use fur_os.Fs.Node.{Status, ok, fail, zeros}
use fur_os.Ata.Bus.{Ports, Line, error_ok}
use fur_os.Ata.Ide.{IdeDevice, ide_device}
use fur_os.Ata.Ahci.{AhciDevice}
use fur_os.Ata.Probe.{ide_probe_device}
use fur_os.Ata.Scan.Controllers.{Hba, no_device, pci_read32, ahci_scan_controllers}

-- `enum device_kind`
pub data DeviceKind : Type 0 where
  dev_none : DeviceKind
  dev_ide : DeviceKind
  dev_ahci : DeviceKind

pub record DeviceMap : Type 0 where
  pub present : Bool
  pub kind : DeviceKind
  pub source_index : ℕ
  pub io_base : ℕ
  pub slave : ℕ
  pub sectors28 : ℕ
  pub model : List ℕ

abbrev pub blank_entry : DeviceMap
blank_entry = record {
  present = false;
  kind = dev_none;
  source_index = 0;
  io_base = 0;
  slave = 0;
  sectors28 = 0;
  model = zeros 41;
}

abbrev pub ata_max_devices : ℕ
ata_max_devices = 16

-- `g_selected_device` is `none` for -1.
pub record Devices : Type 0 where
  pub g_devices : List DeviceMap
  pub g_device_count : ℕ
  pub g_selected_device : Option ℕ

unfoldable pub clear_device_map : Devices → Devices
clear_device_map t = record t {
  g_devices = replicate ata_max_devices blank_entry;
  g_device_count = 0;
}

unfoldable pub add_device_map : DeviceMap → Devices → Devices
add_device_map entry t = if leb ata_max_devices t.g_device_count then t else record t {
  g_devices = set t.g_devices t.g_device_count (record entry {
    present = true;
    model = kstrcpy (get_or t.g_devices t.g_device_count blank_entry).model entry.model;
  });
  g_device_count = suc t.g_device_count;
}

abbrev pub ide_entry : ℕ → IdeDevice → DeviceMap
ide_entry i dev = record {
  present = true;
  kind = dev_ide;
  source_index = i;
  io_base = dev.io_base;
  slave = dev.slave;
  sectors28 = dev.sectors28;
  model = dev.model;
}

abbrev pub ahci_entry : ℕ → AhciDevice → DeviceMap
ahci_entry i dev = record {
  present = true;
  kind = dev_ahci;
  source_index = i;
  io_base = 0;
  slave = 0;
  sectors28 = dev.sectors28;
  model = dev.model;
}

-- The second loop of `ata_scan`, from device `i` on.
unfoldable pub add_ahci_devices : ℕ → ℕ → List AhciDevice → Devices → Devices
add_ahci_devices zero i devices t = t
add_ahci_devices (suc k) i devices t =
    let dev = get_or devices i no_device in
    add_ahci_devices k (suc i) devices
      (if dev.present then add_device_map (ahci_entry i dev) t else t)

-- `g_dbg_...`
pub record Seen : Type 0 where
  pub pci_host_id : ℕ
  pub slot13_id : ℕ
  pub slot13_class : ℕ
  pub slot13_bar5 : ℕ

module _ (p : Ports) where
  pub record Ata : Type 0 where
    pub hba : Hba p
    pub g_ide_devices : List IdeDevice
    pub seen : Seen
    pub table : Devices

  abbrev pub with_line : Ata → Line p → Ata
  with_line s l = record s { hba = record (s.hba) { line = l } }

  -- The first loop of `ata_scan`, from device `i` on. `none` where a disk stays busy for more than
  -- `rounds` reads.
  unfoldable pub probe_ide_devices : ℕ → ℕ → ℕ → Ata → Option Ata
  probe_ide_devices rounds zero i s = some s
  probe_ide_devices rounds (suc k) i s =
      elim (ide_probe_device p rounds (get_or s.g_ide_devices i (ide_device 0 0)) s.hba.line) [
        | none ↦ none
        | some r ↦
            let dev = r.0 in
            probe_ide_devices rounds k (suc i) (record (with_line s (r.1)) {
              g_ide_devices = set s.g_ide_devices i dev;
              table = if dev.present then add_device_map (ide_entry i dev) s.table else s.table;
            })
      ]

  -- The message where no disk was found.
  unfoldable pub why_none : Hba p → ℕ → String
  why_none h pci_host_id =
      if ltb 0 h.g_ahci_controllers_seen && h.g_ahci_count == 0
      then if ltb 0 h.g_ahci_bar64_rejected
        then "AHCI BAR above 4G unsupported"
        else if h.g_ahci_ports_considered == 0
        then "AHCI found but no disk ports"
        else "AHCI identify failed"
      else if pci_host_id % 2 ^ 16 == 0xFFFF
      then "PCI config space unavailable"
      else "no supported disk controller"

  unfoldable pub ask_pci : Line p → Seen × Line p
  ask_pci l =
      let host = pci_read32 p 0 0 0 0 l in
      let id = pci_read32 p 0 13 0 0 (host.1) in
      let class = pci_read32 p 0 13 0 8 (id.1) in
      let bar5 = pci_read32 p 0 13 0 0x24 (class.1) in
      (
        record {
          pci_host_id = host.0;
          slot13_id = id.0;
          slot13_class = class.0;
          slot13_bar5 = bar5.0;
        },
        bar5.1,
      )

  -- The last statements of `ata_scan`.
  unfoldable pub select_first : Ata → Ata
  select_first s =
      if ltb 0 s.table.g_device_count
      then record (with_line s (error_ok p s.hba.line)) {
        table = record (s.table) { g_selected_device = some 0 };
      }
      else with_line s (record (s.hba.line) { g_last_error = why_none s.hba s.seen.pci_host_id })

  -- `ata_scan` after its first loop.
  unfoldable pub scan_ahci : ℕ → Ata → Ata
  scan_ahci ctx s =
      let asked = ask_pci s.hba.line in
      let h =
        (let before = record (s.hba) { line = asked.1 } in
          if asked.0.pci_host_id % 2 ^ 16 == 0xFFFF
          then before
          else ahci_scan_controllers p ctx before) in
      select_first (record s {
        hba = h;
        seen = asked.0;
        table = add_ahci_devices h.g_ahci_count 0 h.g_ahci_devices s.table;
      })

  -- What it returns is `g_device_count`.
  unfoldable pub ata_scan : ℕ → ℕ → Ata → Option Ata
  ata_scan rounds ctx s =
      let cleared = record s {
        table = clear_device_map (record (s.table) { g_selected_device = none });
      } in
      elim (probe_ide_devices rounds 4 0 cleared) [
        | none ↦ none
        | some found ↦ some (scan_ahci ctx found)
      ]
