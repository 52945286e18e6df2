-- ===== src/Ata/Scan/Controllers.antt =====
-- kernel/ata.c: the search of the PCI bus for AHCI controllers, and of these for disks.
use fur_os.Prelude.{
  ℕ, zero, suc, ◌+◌, ◌*◌, ◌/◌, ◌%◌, ◌^◌, Bool, true, false, ◌&&◌, ◌||◌, not, List, codes, leb, ◌==◌,
  if◌then◌else◌, set, replicate,
}
use fur_os.KString.{kstrcpy}
use fur_os.Fs.Node.{Status, ok, fail, zeros}
use fur_os.Ata.Bus.{Ports, Line, bit, set_bit}
use fur_os.Ata.Ahci.{AhciDevice, load, store, ahci_setup_port, ahci_identify}

abbrev pub no_device : AhciDevice
no_device = record { present = false; port = 0; port_no = 0; sectors28 = 0; model = zeros 41 }

abbrev pub ata_max_ahci_devices : ℕ
ata_max_ahci_devices = 8

-- A loop over `i`, with `k` rounds left.
unfoldable pub for_each : {A : Type 0} → ℕ → ℕ → (ℕ → A → A) → A → A
for_each zero i f a = a
for_each (suc k) i f a = for_each k (suc i) f (f i a)

-- The parts of the address share no bits; the last two of `offset` are left out.
unfoldable pub pci_address : ℕ → ℕ → ℕ → ℕ → ℕ
pci_address bus slot func offset =
    2 ^ 31 + bus * 2 ^ 16 + slot * 2 ^ 11 + func * 2 ^ 8 + offset / 4 * 4

module _ (p : Ports) where
  unfoldable pub pci_read32 : ℕ → ℕ → ℕ → ℕ → Line p → ℕ × Line p
  pci_read32 bus slot func offset l =
      let r = p.inl (p.outl l.hw 0xCF8 (pci_address bus slot func offset)) 0xCFC in
      (r.0, record l { hw = r.1 })

  unfoldable pub pci_write32 : ℕ → ℕ → ℕ → ℕ → ℕ → Line p → Line p
  pci_write32 bus slot func offset value l = record l {
    hw = p.outl (p.outl l.hw 0xCF8 (pci_address bus slot func offset)) 0xCFC value;
  }

  -- The hardware, with what the search for controllers sets.
  pub record Hba : Type 0 where
    pub line : Line p
    pub g_ahci_devices : List AhciDevice
    pub g_ahci_count : ℕ
    pub g_ahci_controllers_seen : ℕ
    pub g_ahci_bar64_rejected : ℕ
    pub g_ahci_ports_considered : ℕ

  abbrev pub at_line : Hba → Line p → Hba
  at_line h l = record h { line = l }

  -- `ahci_register_port` once the port is set up.
  unfoldable pub register_device : ℕ → ℕ → AhciDevice → Hba → Hba
  register_device ctx index dev h =
      let asked = ahci_identify p ctx index dev h.line in
      let named : AhciDevice = elim (asked.0) [
        | ok ↦ asked.1
        | fail ↦ record dev {
          sectors28 = 0x0FFFFFFF;
          model = kstrcpy dev.model (codes "AHCI Disk");
        }
      ] in
      record h {
        line = asked.2;
        g_ahci_devices = set h.g_ahci_devices index (record named { present = true });
        g_ahci_count = suc h.g_ahci_count;
      }

  unfoldable pub ahci_register_port : ℕ → ℕ → ℕ → Hba → Status × Hba
  ahci_register_port ctx port port_no h =
      let index = h.g_ahci_count in
      let dev : AhciDevice = record (no_device) { port = port; port_no = port_no } in
      if leb ata_max_ahci_devices index
      then (fail, h)
      else (let up = ahci_setup_port p ctx index port h.line in
          let next = record h { line = up.1; g_ahci_devices = set h.g_ahci_devices index dev } in
          elim (up.0) [ fail ↦ (fail, next) | ok ↦ (ok, register_device ctx index dev next) ])

  -- The test of the signature, which is read up to three times.
  unfoldable pub takes_signature : ℕ → Line p → Bool × Line p
  takes_signature port l =
      let a = load p l (port + 0x24) in
      let b = load p (a.1) (port + 0x24) in
      let c = load p (b.1) (port + 0x24) in
      if a.0 == 0x101
      then (true, a.1)
      else if b.0 == 0
      then (true, b.1)
      else (c.0 == 0xFFFFFFFF, c.1)

  -- One round of the loop over the ports, for a port that is implemented.
  unfoldable pub try_port : ℕ → ℕ → ℕ → Hba → Hba
  try_port ctx port port_no h =
      let ssts = load p h.line (port + 0x28) in
      let sig = takes_signature port (ssts.1) in
      if not (ssts.0 % 16 == 3) || not (ssts.0 / 2 ^ 8 % 16 == 1)
      then at_line h (ssts.1)
      else if sig.0
      then (ahci_register_port ctx port port_no (record (at_line h (sig.1)) {
        g_ahci_ports_considered = suc h.g_ahci_ports_considered;
      })).1
      else at_line h (sig.1)

  -- The loop over the ports, from `port_no` on.
  unfoldable pub try_ports : ℕ → ℕ → ℕ → ℕ → ℕ → Hba → Hba
  try_ports ctx abar ports zero port_no h = h
  try_ports ctx abar ports (suc k) port_no h = elim (bit port_no ports) [
    | false ↦ try_ports ctx abar ports k (suc port_no) h
    | true ↦ elim (leb ata_max_ahci_devices h.g_ahci_count) [
      | true ↦ h
      | false ↦
          try_ports ctx abar ports k (suc port_no)
            (try_port ctx (abar + 0x100 + port_no * 0x80) port_no h)
    ]
  ]

  -- The end of `ahci_probe_controller`, for registers at `abar`.
  unfoldable pub probe_ports : ℕ → ℕ → Hba → Hba
  probe_ports ctx abar h =
      let ghc = load p h.line (abar + 4) in
      let ports = load p (store p (ghc.1) (abar + 4) (set_bit 31 (ghc.0))) (abar + 0xC) in
      try_ports ctx abar (ports.0) 32 0 (at_line h (ports.1))

  -- `ahci_probe_controller` once the controller counts as one.
  unfoldable pub enable_controller : ℕ → ℕ → ℕ → ℕ → Hba → Hba
  enable_controller ctx bus slot func h =
      let command = pci_read32 bus slot func 4 h.line in
      let enabled = pci_write32 bus slot func 4 (set_bit 2 (set_bit 1 (command.0))) (command.1) in
      let bar5 = pci_read32 bus slot func 0x24 enabled in
      let hi = pci_read32 bus slot func 0x28 (bar5.1) in
      let abar = bar5.0 / 16 * 16 in
      if bar5.0 == 0 || bit 0 (bar5.0)
      then at_line h (bar5.1)
      else if bar5.0 / 2 % 4 == 2
      then if hi.0 == 0
        then if abar == 0 then at_line h (hi.1) else probe_ports ctx abar (at_line h (hi.1))
        else record (at_line h (hi.1)) { g_ahci_bar64_rejected = suc h.g_ahci_bar64_rejected }
      else if abar == 0
      then at_line h (bar5.1)
      else probe_ports ctx abar (at_line h (bar5.1))

  -- `classed` is `probe_mode == 1`; the other mode that is asked for is -1.
  unfoldable pub ahci_probe_controller : ℕ → Bool → ℕ → ℕ → ℕ → Hba → Hba
  ahci_probe_controller ctx classed bus slot func h =
      let id = pci_read32 bus slot func 0 h.line in
      let class_reg = pci_read32 bus slot func 8 (id.1) in
      let class_code = class_reg.0 / 2 ^ 24 % 256 in
      let subclass = class_reg.0 / 2 ^ 16 % 256 in
      if id.0 % 2 ^ 16 == 0xFFFF
      then at_line h (id.1)
      else if classed && (not (class_code == 1) || not (subclass == 6))
      then at_line h (class_reg.1)
      else enable_controller ctx bus slot func (record (at_line h (class_reg.1)) {
        g_ahci_controllers_seen = suc h.g_ahci_controllers_seen;
      })

  unfoldable pub scan_buses : ℕ → Hba → Hba
  scan_buses ctx h =
      for_each 256 0
        (λ bus.
          for_each 32 0
            (λ slot. for_each 8 0 (λ func. ahci_probe_controller ctx true bus slot func)))
        h

  unfoldable pub ahci_scan_controllers : ℕ → Hba → Hba
  ahci_scan_controllers ctx h =
      let found = scan_buses ctx (record h {
        g_ahci_devices = replicate ata_max_ahci_devices no_device;
        g_ahci_count = 0;
        g_ahci_controllers_seen = 0;
        g_ahci_bar64_rejected = 0;
        g_ahci_ports_considered = 0;
      }) in
      if found.g_ahci_count == 0
      then ahci_probe_controller ctx false 0 31 5
          (ahci_probe_controller ctx false 0 31 2 (ahci_probe_controller ctx false 0 13 0 found))
      else found
