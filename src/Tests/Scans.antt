-- ===== src/Tests/Scans.antt =====
-- kernel/ata.c: scans of a bus where nothing answers, and of one where everything does at once.
use fur_os.Prelude.{
  ℕ, zero, suc, ◌%◌, ◌≡◌, ◌≢◌, refl, Bool, true, false, Option, none, some, [], arith, ltb,
  if◌then◌else◌, replicate,
}
use fur_os.Ata.Bus.{Ports, Line, bit}
use fur_os.Ata.Ide.{IdeDevice, ide_device, ide_devices}
use fur_os.Ata.Probe.{until_ready, ide_probe_device}
use fur_os.Ata.Probe.Rounds.{status_after, sent, ide_probe_device-none, ide_probe_device-ends}
use fur_os.Ata.Scan.Controllers.{ahci_scan_controllers}
use fur_os.Ata.Scan.Recorded.{IsUnidentified}
use fur_os.Ata.Scan.Unidentified.{ahci_scan_controllers-IsUnidentified}
use fur_os.Ata.Scan.{Ata, clear_device_map, probe_ide_devices, ata_scan}
use fur_os.Ata.Scan.Mapped.{Scanned, ata_scan-Scanned}

-- Every register of the hardware reads as `x`, but the LBA registers, which read as zero.
abbrev constant : ℕ → Ports
constant x = record {
  State = Unit {0};
  inb = λ s port. (if ltb (port % 8) 7 then 0 else x, s);
  outb = λ s port y. s;
  inw = λ s port. (0x2020, s);
  outw = λ s port y. s;
  inl = λ s port. (0x01060000, s);
  outl = λ s port y. s;
  load32 = λ s at. (x, s);
  store32 = λ s at y. s;
  load_bytes = λ s at n. replicate n x;
  store_bytes = λ s at bytes. s;
}

abbrev before : (x : ℕ) → Line (constant x)
before x = record { hw = tt; g_last_error = "ok"; g_last_status = 0; g_last_error_reg = 0 }

abbrev unscanned : (x : ℕ) → Ata (constant x)
unscanned x = record {
  hba = record {
    line = before x;
    g_ahci_devices = [];
    g_ahci_count = 0;
    g_ahci_controllers_seen = 0;
    g_ahci_bar64_rejected = 0;
    g_ahci_ports_considered = 0;
  };
  g_ide_devices = ide_devices;
  seen = record { pci_host_id = 0; slot13_id = 0; slot13_class = 0; slot13_bar5 = 0 };
  table = record { g_devices = []; g_device_count = 0; g_selected_device = none };
}

abbrev first : IdeDevice
first = ide_device 0x1F0 0

ones : (n : ℕ) (l : Line (constant 255)) → bit 7 (status_after (constant 255) n 0x1F0 l) ≡ true
unfolding status_after
ones zero l = refl
ones (suc n) l = ones n l

ide_probe_device-none_example : ide_probe_device (constant 255) 1000 first (before 255) ≡ none
ide_probe_device-none_example =
    ide_probe_device-none (constant 255) first (before 255)
      (λ n. ones n (sent (constant 255) first (before 255))) 1000

first_status :
    bit 7 (status_after (constant 72) 0 first.io_base (sent (constant 72) first (before 72)))
    ≡ false
unfolding status_after
first_status = refl

ide_probe_device-ends_example : ide_probe_device (constant 72) 2 first (before 72) ≢ none
ide_probe_device-ends_example =
    ide_probe_device-ends (constant 72) 0 2 first (before 72) first_status (omega arith)

ahci_scan_controllers-IsUnidentified_example :
    IsUnidentified
      (ahci_scan_controllers (constant 72) 0x100000 (unscanned 72).hba).g_ahci_devices
      (ahci_scan_controllers (constant 72) 0x100000 (unscanned 72).hba).g_ahci_count
ahci_scan_controllers-IsUnidentified_example =
    ahci_scan_controllers-IsUnidentified (constant 72) 0x100000 (unscanned 72).hba

-- The state that a scan ends in, where it does.
reached : Option (Ata (constant 72)) → Ata (constant 72)
reached none = unscanned 72
reached (some m) = m

is_some : Option (Ata (constant 72)) → Bool
is_some none = false
is_some (some m) = true

reached-some : (o : Option (Ata (constant 72))) → is_some o ≡ true → o ≡ some (reached o)
unfolding is_some reached
reached-some none h = absurd (cc h)
reached-some (some m) h = refl

all_answer : is_some (ata_scan (constant 72) 0 0x100000 (unscanned 72)) ≡ true
unfolding is_some ata_scan probe_ide_devices ide_probe_device until_ready ide_devices
    clear_device_map
all_answer = refl

ata_scan-Scanned_example :
    Scanned (constant 72) (reached (ata_scan (constant 72) 0 0x100000 (unscanned 72)))
unfolding ide_devices
ata_scan-Scanned_example =
    ata_scan-Scanned (constant 72) 0 0x100000 (unscanned 72)
      (reached (ata_scan (constant 72) 0 0x100000 (unscanned 72))) refl
      (reached-some (ata_scan (constant 72) 0 0x100000 (unscanned 72)) all_answer)
