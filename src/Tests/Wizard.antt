-- ===== src/Tests/Wizard.antt =====
-- kernel/installer.c over the disk in memory.
use fur_os.Prelude.{
  ℕ, ◌≡◌, ◌≢◌, refl, Bool, true, false, Option, none, some, [], ◌∷◌, arith, replicate,
}
use fur_os.Fs.Node.{fs_init}
use fur_os.Disk.Store.{Disk, disk_init}
use fur_os.Ata.Sectors.{AtaDebugState}
use fur_os.Installer.Wizard.{Wiz, Setup}
use fur_os.Installer.Stages.{welcome_key, stage_welcome}
use fur_os.Installer.Run.{
  Ending, cancelled, unfinished, hanging, wizard_start, next_char, quit, run_stage, wizard,
  run_scanned, installer_run,
}
use fur_os.Installer.Run.Ends.{installer_run-ends}
use fur_os.Installer.Run.Cancelled.{installer_run-cancelled}
use fur_os.Tests.DiskImage.{memory}

abbrev no_debug : AtaDebugState
no_debug = record {
  pci_host_id = 0;
  pci_ahci_slot_id = 0;
  pci_ahci_slot_class = 0;
  pci_ahci_slot_bar5 = 0;
  ahci_controllers_seen = 0;
  ahci_ports_considered = 0;
  ahci_devices_found = 0;
}

-- A disk of zeros, and ESC followed by a blank on the keyboard.
abbrev at_boot : Setup memory
at_boot = record {
  screen = record { row = 0; column = 0; color = 7; vp_top = 0; vp_bot = 24; memory = [] };
  nodes = fs_init;
  disk = record {
    drive = λ j. replicate 512 0;
    g_disk_count = 0;
    g_selected_disk = none;
    g_last_error = "ok";
    g_payload = [];
  };
  keys = 27 ∷ 32 ∷ [];
}

abbrev cancel_run : ℕ → Option (Ending × Wiz × Setup memory)
cancel_run rounds = installer_run memory [] [] 0 rounds no_debug at_boot

is_cancelled : Option (Ending × Wiz × Setup memory) → Bool
is_cancelled (some (cancelled, w, m)) = true
is_cancelled _ = false

left : Option (Ending × Wiz × Setup memory) → Wiz × Setup memory
left none = (wizard_start, at_boot)
left (some (e, w, m)) = (w, m)

left-cancelled :
    (o : Option (Ending × Wiz × Setup memory))
    → is_cancelled o ≡ true
    → o ≡ some (cancelled, (left o).0, (left o).1)
unfolding is_cancelled left
left-cancelled none h = absurd (cc h)
left-cancelled (some (cancelled, w, m)) h = refl
left-cancelled (some (Ending.complete, w, m)) h = absurd (cc h)
left-cancelled (some (Ending.failed, w, m)) h = absurd (cc h)
left-cancelled (some (Ending.no_disk, w, m)) h = absurd (cc h)
left-cancelled (some (unfinished, w, m)) h = absurd (cc h)
left-cancelled (some (hanging, w, m)) h = absurd (cc h)

escapes : is_cancelled (cancel_run 4) ≡ true
unfolding is_cancelled installer_run run_scanned disk_init wizard run_stage stage_welcome
    welcome_key quit next_char
escapes = refl

abbrev scanned : Disk memory
scanned = record (at_boot.disk) { g_disk_count = 1; g_selected_disk = some 0; g_last_error = "ok" }

scan_returns : disk_init memory at_boot.disk ≡ some scanned
unfolding disk_init
scan_returns = refl

installer_run-ends_example :
    (cancel_run 4 ≢ some (unfinished, wizard_start, at_boot))
    × (cancel_run 4 ≢ some (hanging, wizard_start, at_boot))
installer_run-ends_example =
    installer_run-ends memory [] [] 0 4 no_debug at_boot scanned wizard_start at_boot scan_returns
      (omega arith)

installer_run-cancelled_example : (left (cancel_run 4)).1.disk.drive ≡ at_boot.disk.drive
installer_run-cancelled_example =
    installer_run-cancelled memory (λ s. s ≡ at_boot.disk.drive) (λ s i d. d) [] [] 0 4 no_debug
      at_boot scanned (left (cancel_run 4)).0 (left (cancel_run 4)).1 scan_returns refl
      (left-cancelled (cancel_run 4) escapes)
