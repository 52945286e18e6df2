-- ===== src/Ata/Scan/Unidentified.antt =====
-- kernel/ata.c: what the search of the controllers records of the disks that it finds.
use fur_os.Prelude.{
  ℕ, zero, suc, ◌+◌, ◌*◌, ◌/◌, ◌%◌, ◌^◌, ◌<◌, ◌≡◌, refl, Bool, true, false, ◌&&◌, ◌||◌, not, arith,
  leb, ◌==◌, set, replicate, branch, bool_branch,
}
use fur_os.Fs.Node.{Status, fail, status_branch}
use fur_os.Ata.Bus.{Ports, Line, bit, set_bit}
use fur_os.Ata.Ahci.{AhciDevice, load, store, ahci_issue, ahci_identify, ahci_setup_port}
use fur_os.Ata.Scan.Controllers.{
  no_device, for_each, pci_read32, pci_write32, Hba, at_line, register_device, ahci_register_port,
  takes_signature, try_port, try_ports, probe_ports, enable_controller, ahci_probe_controller,
  scan_buses, ahci_scan_controllers,
}
use fur_os.Ata.Scan.Recorded.{IsUnidentified, behind, one_more, nothing}

for_each-keeps {ℓ} :
    {A : Type 0} (P : A → Type ℓ) (k i : ℕ) (f : ℕ → A → A) (a : A)
    → ((j : ℕ) (a : A) → P a → P (f j a))
    → P a
    → P (for_each k i f a)
unfolding for_each
for_each-keeps P zero i f a h pa = pa
for_each-keeps P (suc k) i f a h pa = for_each-keeps P k (suc i) f (f i a) h (h i a pa)

module _ (p : Ports) where
  abbrev Named : Hba p → Type 0
  Named h = IsUnidentified h.g_ahci_devices h.g_ahci_count

  -- The device is not there yet when it is asked.
  ahci_identify-fails :
      (ctx index : ℕ) (dev : AhciDevice) (l : Line p)
      → dev.present ≡ false
      → ((ahci_identify p ctx index dev l).0 ≡ fail) × ((ahci_identify p ctx index dev l).1 ≡ dev)
  unfolding ahci_identify ahci_issue
  ahci_identify-fails ctx index dev l h = rw h (refl, refl)

  register_device-Named :
      (ctx port port_no : ℕ) (h : Hba p)
      → Named h
      → h.g_ahci_count < 8
      → Named (
          register_device p ctx h.g_ahci_count
            (record (no_device) { port = port; port_no = port_no })
            h)
  unfolding register_device
  register_device-Named ctx port port_no h u lt =
      let dev : AhciDevice = record (no_device) { port = port; port_no = port_no } in
      let (e, q) = ahci_identify-fails ctx h.g_ahci_count dev h.line refl in
      let P : AhciDevice → Type 0 = λ d.
        IsUnidentified (set h.g_ahci_devices h.g_ahci_count (record d { present = true }))
          (suc h.g_ahci_count) in
      status_branch P (ahci_identify p ctx h.g_ahci_count dev h.line).0 (λ r. absurd (cc (r, e)))
        (λ r. one_more h.g_ahci_devices h.g_ahci_count port port_no u lt)

  ahci_register_port-Named :
      (ctx port port_no : ℕ) (h : Hba p)
      → Named h
      → Named (ahci_register_port p ctx port port_no h).1
  unfolding ahci_register_port
  ahci_register_port-Named ctx port port_no h u =
      let dev : AhciDevice = record (no_device) { port = port; port_no = port_no } in
      let up = ahci_setup_port p ctx h.g_ahci_count port h.line in
      let next : Hba p = record h {
        line = up.1;
        g_ahci_devices = set h.g_ahci_devices h.g_ahci_count dev;
      } in
      let u' : Named next = behind h.g_ahci_devices h.g_ahci_count dev u in
      let P : Status × Hba p → Type 0 = λ r. Named r.1 in
      branch P (leb 8 h.g_ahci_count) (λ e. u)
        (λ e.
          status_branch P up.0
            (λ r. register_device-Named ctx port port_no next u' (ground (arith, e))) (λ r. u'))

  try_port-Named :
      (ctx port port_no : ℕ) (h : Hba p) → Named h → Named (try_port p ctx port port_no h)
  unfolding try_port
  try_port-Named ctx port port_no h u =
      let ssts = p.load32 h.line.hw (port + 0x28) in
      let sig = takes_signature p port (record (h.line) { hw = ssts.1 }) in
      let next : Hba p = record (at_line p h sig.1) {
        g_ahci_ports_considered = suc h.g_ahci_ports_considered;
      } in
      branch Named (not (ssts.0 % 16 == 3) || not (ssts.0 / 2 ^ 8 % 16 == 1)) (λ e. u)
        (λ e. branch Named sig.0 (λ t. ahci_register_port-Named ctx port port_no next u) (λ t. u))

  try_ports-Named :
      (ctx abar ports k port_no : ℕ) (h : Hba p)
      → Named h
      → Named (try_ports p ctx abar ports k port_no h)
  unfolding try_ports
  try_ports-Named ctx abar ports zero port_no h u = u
  try_ports-Named ctx abar ports (suc k) port_no h u =
      let port : ℕ = abar + 0x100 + port_no * 0x80 in
      bool_branch Named (bit port_no ports)
        (λ e.
          bool_branch Named (leb 8 h.g_ahci_count) (λ full. u)
            (λ free.
              try_ports-Named ctx abar ports k (suc port_no) (try_port p ctx port port_no h)
                (try_port-Named ctx port port_no h u)))
        (λ e. try_ports-Named ctx abar ports k (suc port_no) h u)

  probe_ports-Named : (ctx abar : ℕ) (h : Hba p) → Named h → Named (probe_ports p ctx abar h)
  unfolding probe_ports
  probe_ports-Named ctx abar h u =
      let ghc = load p h.line (abar + 4) in
      let ports = load p (store p ghc.1 (abar + 4) (set_bit 31 ghc.0)) (abar + 0xC) in
      try_ports-Named ctx abar ports.0 32 0 (at_line p h ports.1) u

  enable_controller-Named :
      (ctx bus slot func : ℕ) (h : Hba p)
      → Named h
      → Named (enable_controller p ctx bus slot func h)
  unfolding enable_controller
  enable_controller-Named ctx bus slot func h u =
      let command = pci_read32 p bus slot func 4 h.line in
      let enabled = pci_write32 p bus slot func 4 (set_bit 2 (set_bit 1 command.0)) command.1 in
      let bar5 = pci_read32 p bus slot func 0x24 enabled in
      let hi = pci_read32 p bus slot func 0x28 bar5.1 in
      let abar : ℕ = bar5.0 / 16 * 16 in
      branch Named (bar5.0 == 0 || bit 0 bar5.0) (λ e. u)
        (λ e.
          branch Named (bar5.0 / 2 % 4 == 2)
            (λ wide.
              branch Named (hi.0 == 0)
                (λ low.
                  branch Named (abar == 0) (λ z. u)
                    (λ z. probe_ports-Named ctx abar (at_line p h hi.1) u))
                (λ high. u))
            (λ narrow.
              branch Named (abar == 0) (λ z. u)
                (λ z. probe_ports-Named ctx abar (at_line p h bar5.1) u)))

  ahci_probe_controller-Named :
      (ctx : ℕ) (classed : Bool) (bus slot func : ℕ) (h : Hba p)
      → Named h
      → Named (ahci_probe_controller p ctx classed bus slot func h)
  unfolding ahci_probe_controller
  ahci_probe_controller-Named ctx classed bus slot func h u =
      let id = pci_read32 p bus slot func 0 h.line in
      let class_reg = pci_read32 p bus slot func 8 id.1 in
      let seen : Hba p = record (at_line p h class_reg.1) {
        g_ahci_controllers_seen = suc h.g_ahci_controllers_seen;
      } in
      branch Named (id.0 % 2 ^ 16 == 0xFFFF) (λ e. u)
        (λ e.
          branch Named
            (classed
              && (not (class_reg.0 / 2 ^ 24 % 256 == 1) || not (class_reg.0 / 2 ^ 16 % 256 == 6)))
            (λ other. u) (λ one. enable_controller-Named ctx bus slot func seen u))

  scan_buses-Named : (ctx : ℕ) (h : Hba p) → Named h → Named (scan_buses p ctx h)
  unfolding scan_buses
  scan_buses-Named ctx h u =
      for_each-keeps Named 256 0
        (λ bus.
          for_each 32 0
            (λ slot. for_each 8 0 (λ func. ahci_probe_controller p ctx true bus slot func)))
        h
        (λ bus h u.
          for_each-keeps Named 32 0
            (λ slot. for_each 8 0 (λ func. ahci_probe_controller p ctx true bus slot func)) h
            (λ slot h u.
              for_each-keeps Named 8 0 (λ func. ahci_probe_controller p ctx true bus slot func) h
                (λ func h u. ahci_probe_controller-Named ctx true bus slot func h u) u)
            u)
        u

  -- Whatever the hardware answers, the search for AHCI controllers ends with at most 8 devices, and each
  -- of them is recorded as one that could not be identified: under the name "AHCI Disk", with 2^28 - 1
  -- sectors.
  pub ahci_scan_controllers-IsUnidentified :
      (ctx : ℕ) (h : Hba p)
      → IsUnidentified
          (ahci_scan_controllers p ctx h).g_ahci_devices
          (ahci_scan_controllers p ctx h).g_ahci_count
  unfolding ahci_scan_controllers
  ahci_scan_controllers-IsUnidentified ctx h =
      let found : Hba p = scan_buses p ctx (record h {
        g_ahci_devices = replicate 8 no_device;
        g_ahci_count = 0;
        g_ahci_controllers_seen = 0;
        g_ahci_bar64_rejected = 0;
        g_ahci_ports_considered = 0;
      }) in
      let u =
        scan_buses-Named ctx
          (record h {
            g_ahci_devices = replicate 8 no_device;
            g_ahci_count = 0;
            g_ahci_controllers_seen = 0;
            g_ahci_bar64_rejected = 0;
            g_ahci_ports_considered = 0;
          })
          nothing in
      let first : Hba p = ahci_probe_controller p ctx false 0 13 0 found in
      let second : Hba p = ahci_probe_controller p ctx false 0 31 2 first in
      branch Named (found.g_ahci_count == 0)
        (λ e. ahci_probe_controller-Named ctx false 0 31 5 second (
          ahci_probe_controller-Named ctx false 0 31 2 first
            (ahci_probe_controller-Named ctx false 0 13 0 found u)))
        (λ e. u)
