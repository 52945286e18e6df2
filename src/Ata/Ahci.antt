-- ===== src/Ata/Ahci.antt =====
-- kernel/ata.c: the disks on AHCI ports. A register of a port is a word at the port's address.
pub mod Command
use fur_os.Prelude.{
  ℕ, zero, suc, ◌+◌, ◌-◌, ◌*◌, ◌/◌, ◌%◌, ◌^◌, Bool, true, false, ◌&&◌, ◌||◌, not, Option, none,
  some, List, [], ◌∷◌, ◌++◌, codes, String, length, take, leb, ltb, ◌==◌, if◌then◌else◌, get_or,
  set, replicate,
}
use fur_os.KString.{byte_at, kstrlen, kstrcpy}
use fur_os.Fs.Node.{Status, ok, fail, zeros}
use fur_os.Ata.Bus.{
  Ports, Line, bit, set_bit, clear_bit, io_wait, error_ok, with_error, ata_poll_attempts,
}
use fur_os.Ata.Ide.{extract_model_from_identify}
use fur_os.Ata.Ahci.Command.{header_bytes, fis_bytes, prdt_bytes}

-- `port` is its address; `none` where the array is still zero.
pub record AhciDevice : Type 0 where
  pub present : Bool
  pub port : ℕ
  pub port_no : ℕ
  pub sectors28 : ℕ
  pub model : List ℕ

-- The `out` of 41 bytes, up to its terminator.
unfoldable pub add_prefixed_model : List ℕ → List ℕ → List ℕ
add_prefixed_model prefix model =
    take 40 (take (kstrlen prefix) prefix ++ take (kstrlen model) model) ++ 0 ∷ []

-- The words of a memory of bytes.
unfoldable pub halves : List ℕ → List ℕ
halves [] = []
halves (a ∷ []) = a ∷ []
halves (a ∷ b ∷ rest) = (a + b * 256) ∷ halves rest

-- The addresses in `g_ahci_ctx[index]`, for an array that begins at `ctx`.
abbrev pub cmd_list_at : ℕ → ℕ → ℕ
cmd_list_at ctx index = ctx + index * 2048

abbrev pub fis_at : ℕ → ℕ → ℕ
fis_at ctx index = ctx + index * 2048 + 1024

abbrev pub cmd_table_at : ℕ → ℕ → ℕ
cmd_table_at ctx index = ctx + index * 2048 + 1280

abbrev pub identify_at : ℕ → ℕ → ℕ
identify_at ctx index = ctx + index * 2048 + 1536

module _ (p : Ports) where
  abbrev pub load : Line p → ℕ → ℕ × Line p
  load l at = ((p.load32 l.hw at).0, record l { hw = (p.load32 l.hw at).1 })

  abbrev pub store : Line p → ℕ → ℕ → Line p
  store l at value = record l { hw = p.store32 l.hw at value }

  abbrev pub store_memory : Line p → ℕ → List ℕ → Line p
  store_memory l at bytes = record l { hw = p.store_bytes l.hw at bytes }

  -- `port->tfd` is read for the status and once more for the error.
  unfoldable pub error_ahci : String → ℕ → Line p → Status × Line p
  error_ahci msg port l =
      let status = load l (port + 0x20) in
      let error = load (status.1) (port + 0x20) in
      (
        fail,
        record (error.1) {
          g_last_error = msg;
          g_last_status = status.0 % 256;
          g_last_error_reg = error.0 / 256 % 256;
        },
      )

  -- Reads of one register until it passes, for so many attempts; whether it did.
  unfoldable pub wait_for : (ℕ → Bool) → ℕ → ℕ → Line p → Bool × Line p
  wait_for test at zero l = (false, l)
  wait_for test at (suc k) l =
      let r = load l at in
      elim (test (r.0)) [ true ↦ (true, r.1) | false ↦ wait_for test at k (io_wait p (r.1)) ]

  unfoldable pub ahci_stop_port : ℕ → Line p → Status × Line p
  ahci_stop_port port l =
      let cmd = load l (port + 0x18) in
      let stopped =
        wait_for (λ x. not (bit 15 x) && not (bit 14 x)) (port + 0x18) ata_poll_attempts
          (store (cmd.1) (port + 0x18) (clear_bit 4 (clear_bit 0 (cmd.0)))) in
      if stopped.0 then (ok, stopped.1) else error_ahci "AHCI stop timeout" port (stopped.1)

  unfoldable pub ahci_start_port : ℕ → Line p → Status × Line p
  ahci_start_port port l =
      let waited = wait_for (λ x. not (bit 15 x)) (port + 0x18) ata_poll_attempts l in
      let cmd = load (waited.1) (port + 0x18) in
      if bit 15 (cmd.0)
      then error_ahci "AHCI CR clear timeout" port (cmd.1)
      else (let a = load (cmd.1) (port + 0x18) in
          let b = load (store (a.1) (port + 0x18) (set_bit 4 (a.0))) (port + 0x18) in
          (ok, store (b.1) (port + 0x18) (set_bit 0 (b.0))))

  unfoldable pub ahci_setup_port : ℕ → ℕ → ℕ → Line p → Status × Line p
  ahci_setup_port ctx index port l =
      let stopped = ahci_stop_port port l in
      elim (stopped.0) [
        | fail ↦ (fail, stopped.1)
        | ok ↦
            let clb = cmd_list_at ctx index in
            let fb = fis_at ctx index in
            let cleared = store_memory (stopped.1) clb (zeros 2048) in
            if leb (2 ^ 32) clb || leb (2 ^ 32) fb
            then error_ahci "AHCI high memory not supported" port cleared
            else (let a = store (store cleared port clb) (port + 4) 0 in
                let b = store (store a (port + 8) fb) (port + 0xC) 0 in
                let c = store (store b (port + 0x10) 0xFFFFFFFF) (port + 0x30) 0xFFFFFFFF in
                ahci_start_port port c)
      ]

  -- `((port->ci | port->sact) & 1) == 0`, for so many attempts.
  unfoldable pub slot_free : ℕ → ℕ → Line p → Status × Line p
  slot_free port zero l = error_ahci "AHCI slot busy timeout" port l
  slot_free port (suc k) l =
      let ci = load l (port + 0x38) in
      let sact = load (ci.1) (port + 0x34) in
      elim (bit 0 (ci.0) || bit 0 (sact.0)) [
        | false ↦ (ok, sact.1)
        | true ↦ slot_free port k (io_wait p (sact.1))
      ]

  unfoldable pub ahci_wait_slot_free : ℕ → Line p → Status × Line p
  ahci_wait_slot_free port l = slot_free port ata_poll_attempts l

  -- The last loop of `ahci_issue`: the command is done when its bit in `ci` is gone.
  unfoldable pub until_done : ℕ → ℕ → Line p → Status × Line p
  until_done port zero l = error_ahci "AHCI command timeout" port l
  until_done port (suc k) l =
      let ci = load l (port + 0x38) in
      let is = load (ci.1) (port + 0x10) in
      elim (bit 30 (is.0)) [
        | true ↦ error_ahci "AHCI task file error" port (is.1)
        | false ↦ elim (bit 0 (ci.0)) [
          | false ↦ (ok, error_ok p (is.1))
          | true ↦ until_done port k (io_wait p (is.1))
        ]
      ]

  -- The end of `ahci_issue`, once the addresses have passed: the rest of the command in memory, and
  -- its start.
  unfoldable pub issue_command : ℕ → ℕ → ℕ → List ℕ → List ℕ → Line p → Status × Line p
  issue_command ctx index port header fis l =
      let a = store_memory l (cmd_list_at ctx index) header in
      let b = store_memory a (cmd_table_at ctx index) fis in
      until_done port ata_poll_attempts (store (store b (port + 0x10) 0xFFFFFFFF) (port + 0x38) 1)

  -- `ahci_issue` once the port is free.
  unfoldable pub fill_command : ℕ → ℕ → ℕ → ℕ → ℕ → ℕ → ℕ → Bool → ℕ → ℕ → Line p → Status × Line p
  fill_command ctx index port command lba transfer_count fis_count write device_reg dba l =
      let table = cmd_table_at ctx index in
      let a = store_memory l (cmd_list_at ctx index) (header_bytes write 0) in
      let b = store_memory a table (zeros 144) in
      let c = store_memory b (table + 128) (prdt_bytes dba transfer_count) in
      if leb (2 ^ 32) dba
      then error_ahci "AHCI DMA buffer above 4G" port b
      else if leb (2 ^ 32) table
      then error_ahci "AHCI command table above 4G" port c
      else issue_command ctx index port (header_bytes write table)
          (fis_bytes command lba fis_count device_reg) c

  -- The buffer is at the address `dba`.
  unfoldable pub ahci_issue :
      ℕ → ℕ → AhciDevice → ℕ → ℕ → ℕ → ℕ → Bool → ℕ → ℕ → Line p → Status × Line p
  ahci_issue ctx index dev command lba transfer_count fis_count write device_reg dba l =
      let port = dev.port in
      if not dev.present
      then with_error p l "AHCI device missing"
      else if dba == 0 || transfer_count == 0
      then with_error p l "AHCI invalid request"
      else (let free = ahci_wait_slot_free port l in
          elim (free.0) [
            | fail ↦ (fail, free.1)
            | ok ↦
                let idle =
                  wait_for (λ x. not (bit 7 x) && not (bit 3 x)) (port + 0x20) ata_poll_attempts
                    (free.1) in
                let tfd = load (idle.1) (port + 0x20) in
                if bit 7 (tfd.0) || bit 3 (tfd.0)
                then error_ahci "AHCI port busy timeout" port (tfd.1)
                else fill_command ctx index port command lba transfer_count fis_count write
                    device_reg dba (tfd.1)
          ])

  unfoldable pub ahci_identify : ℕ → ℕ → AhciDevice → Line p → Status × AhciDevice × Line p
  ahci_identify ctx index dev l =
      let issued = ahci_issue ctx index dev 0xEC 0 1 0 false 0 (identify_at ctx index) l in
      elim (issued.0) [
        | fail ↦ (fail, dev, issued.1)
        | ok ↦
            let id = halves (p.load_bytes (issued.1).hw (identify_at ctx index) 512) in
            let found = extract_model_from_identify id in
            let model = if byte_at found 0 == 0 then kstrcpy found (codes "SATA Disk") else found in
            (
              ok,
              record dev {
                sectors28 = get_or id 60 0 + get_or id 61 0 * 2 ^ 16;
                model = add_prefixed_model (codes "AHCI ") model;
              },
              issued.1,
            )
      ]
