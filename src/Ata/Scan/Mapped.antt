-- ===== src/Ata/Scan/Mapped.antt =====
-- kernel/ata.c: the table of the disks that a scan found.
use fur_os.Prelude.{
  ℕ, zero, suc, ◌+◌, ◌%◌, ◌^◌, ◌≡◌, refl, ◌∙◌, Option, none, some, List, length, arith, leb, ltb,
  ◌==◌, if◌then◌else◌, subst, get_or, set, branch, option_branch, length-set, length-replicate,
}
use fur_os.Ata.Bus.{Ports}
use fur_os.Ata.Ide.{IdeDevice, ide_device}
use fur_os.Ata.Ahci.{AhciDevice}
use fur_os.Ata.Probe.{ide_probe_device}
use fur_os.Ata.Scan.Controllers.{Hba, ahci_scan_controllers}
use fur_os.Ata.Scan.{
  blank_entry, Devices, clear_device_map, add_device_map, ide_entry, add_ahci_devices, Ata,
  with_line, probe_ide_devices, ask_pci, select_first, scan_ahci, ata_scan,
}
use fur_os.Ata.Scan.Listed.{IsListed, add_ahci_devices-IsListed, ide_round, selected_still}

module _ (p : Ports) where
  -- What holds of a state that the scan reaches, after `n` IDE devices.
  abbrev Listed : List AhciDevice → ℕ → Ata p → Type 0
  Listed ahcis n s =
      (length s.g_ide_devices ≡ 4)
      × IsListed s.g_ide_devices ahcis n s.table
      × (s.table.g_selected_device ≡ none)

  abbrev IfSome : (Ata p → Type 0) → Option (Ata p) → Type 0
  IfSome P none = Unit {0}
  IfSome P (some m) = P m

  probe_ide_devices-Listed :
      (ahcis : List AhciDevice) (rounds k i : ℕ) (s : Ata p)
      → i + k ≡ 4
      → Listed ahcis i s
      → IfSome (Listed ahcis 4) (probe_ide_devices p rounds k i s)
  unfolding probe_ide_devices add_device_map
  probe_ide_devices-Listed ahcis rounds zero i s e l =
      let q : i ≡ 4 = omega (arith, e) in subst (λ n. Listed ahcis n s) q l
  probe_ide_devices-Listed ahcis rounds (suc k) i s e (n, l, z) =
      option_branch (IfSome (Listed ahcis 4))
        (ide_probe_device p rounds (get_or s.g_ide_devices i (ide_device 0 0)) s.hba.line) (λ h. tt)
        (λ r h.
          let dev : IdeDevice = r.0 in
          let t : Devices =
            if dev.present then add_device_map (ide_entry i dev) s.table else s.table in
          probe_ide_devices-Listed ahcis rounds k (suc i)
            (record (with_line p s r.1) { g_ide_devices = set s.g_ide_devices i dev; table = t })
            (omega (arith, e))
            (
              length-set s.g_ide_devices i dev ∙ n,
              ide_round ahcis i dev s.g_ide_devices s.table (omega (arith, e, n)) l,
              branch (λ (t : Devices). t.g_selected_device ≡ none) dev.present
                  (λ y.
                    branch (λ (t : Devices). t.g_selected_device ≡ none)
                      (leb 16 s.table.g_device_count) (λ f. z) (λ f. z))
                  (λ y. z),
            ))

  -- The first disk is selected where there is one, and none else.
  abbrev pub Selects : Devices → Type 0
  Selects t = t.g_selected_device ≡ (if ltb 0 t.g_device_count then some 0 else none)

  select_first-Selects :
      (s : Ata p) → s.table.g_selected_device ≡ none → Selects (select_first p s).table
  unfolding select_first
  select_first-Selects s z =
      branch (λ (s : Ata p). Selects s.table) (ltb 0 s.table.g_device_count) (λ e. rw e refl)
        (λ e. rw (e, z) refl)

  abbrev pub Scanned : Ata p → Type 0
  Scanned s = IsListed s.g_ide_devices s.hba.g_ahci_devices 4 s.table × Selects s.table

  select_first-Scanned :
      (s : Ata p)
      → IsListed s.g_ide_devices s.hba.g_ahci_devices 4 s.table
      → IsListed
          (select_first p s).g_ide_devices
          (select_first p s).hba.g_ahci_devices
          4
          (select_first p s).table
  unfolding select_first
  select_first-Scanned s l =
      branch (λ (s : Ata p). IsListed s.g_ide_devices s.hba.g_ahci_devices 4 s.table)
        (ltb 0 s.table.g_device_count)
        (λ e. record { room = l.room; bounded = l.bounded; entries = l.entries }) (λ e. l)

  scan_ahci-Scanned :
      (ctx : ℕ) (s : Ata p)
      → ((ahcis : List AhciDevice) → Listed ahcis 4 s)
      → Scanned (scan_ahci p ctx s)
  unfolding scan_ahci
  scan_ahci-Scanned ctx s l =
      let asked = ask_pci p s.hba.line in
      let before : Hba p = record (s.hba) { line = asked.1 } in
      let h : Hba p =
        if asked.0.pci_host_id % 2 ^ 16 == 0xFFFF
        then before
        else ahci_scan_controllers p ctx before in
      let (n, t, z) = l h.g_ahci_devices in
      let next : Ata p = record s {
        hba = h;
        seen = asked.0;
        table = add_ahci_devices h.g_ahci_count 0 h.g_ahci_devices s.table;
      } in
      (
        select_first-Scanned next (
            add_ahci_devices-IsListed s.g_ide_devices h.g_ahci_devices 4 h.g_ahci_count 0 s.table
              t),
        select_first-Selects next (selected_still h.g_ahci_devices h.g_ahci_count 0 s.table ∙ z),
      )

  -- Whatever the hardware answers, where a scan ends, the table lists at most 16 disks; each entry is
  -- marked present and is that of an IDE or AHCI device which is marked present too; and the first
  -- entry is selected, or none where the table is empty. The driver holds its four IDE devices before.
  pub ata_scan-Scanned :
      (rounds ctx : ℕ) (s m : Ata p)
      → length s.g_ide_devices ≡ 4
      → ata_scan p rounds ctx s ≡ some m
      → Scanned m
  unfolding ata_scan clear_device_map
  ata_scan-Scanned rounds ctx s m n q =
      let cleared : Ata p = record s {
        table = clear_device_map (record (s.table) { g_selected_device = none });
      } in
      let start : (ahcis : List AhciDevice) → Listed ahcis 0 cleared = λ ahcis. (
        n,
        record {
          room = length-replicate 16 blank_entry;
          bounded = omega arith;
          entries = λ i h. absurd (omega (arith, h));
        },
        refl,
      ) in
      let done : IfSome Scanned (ata_scan p rounds ctx s) =
        option_branch (IfSome Scanned) (probe_ide_devices p rounds 4 0 cleared) (λ e. tt)
          (λ found e. scan_ahci-Scanned ctx found (λ ahcis.
            subst (IfSome (Listed ahcis 4)) e
              (probe_ide_devices-Listed ahcis rounds 4 0 cleared refl (start ahcis)))) in
      subst (IfSome Scanned) q done
