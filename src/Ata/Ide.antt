-- ===== src/Ata/Ide.antt =====
-- kernel/ata.c: the disks on the two IDE channels. A register is a port `io_base + IDE_REG_...`.
pub mod Pio
pub mod Waits
pub mod Transfers
pub mod Flush
pub mod Bytes
use fur_os.Prelude.{
  ℕ, zero, suc, ◌+◌, ◌-◌, ◌*◌, ◌/◌, ◌%◌, ◌^◌, Bool, true, false, ◌&&◌, ◌||◌, not, Option, none,
  some, List, [], ◌∷◌, ◌++◌, String, ltb, leb, ◌==◌, if◌then◌else◌, length, take, drop, get_or, set,
  replicate,
}
use fur_os.KString.{byte_at}
use fur_os.Fs.Node.{Status, ok, fail, zeros}
use fur_os.Ata.Bus.{
  Ports, Line, bit, read8, write8, io_wait, error_ok, with_error, ata_poll_attempts,
}

pub record IdeDevice : Type 0 where
  pub present : Bool
  pub io_base : ℕ
  pub slave : ℕ
  pub identify : List ℕ
  pub sectors28 : ℕ
  pub model : List ℕ

abbrev pub ide_device : ℕ → ℕ → IdeDevice
ide_device io_base slave = record {
  present = false;
  io_base = io_base;
  slave = slave;
  identify = zeros 256;
  sectors28 = 0;
  model = zeros 41;
}

unfoldable pub ide_devices : List IdeDevice
ide_devices = ide_device 0x1F0 0 ∷ ide_device 0x1F0 1 ∷ ide_device 0x170 0 ∷ ide_device 0x170 1 ∷ []

-- The bytes of words 27 to 46, the high one of each first.
unfoldable pub swap_bytes : List ℕ → List ℕ
swap_bytes [] = []
swap_bytes (w ∷ ws) = w / 256 % 256 ∷ w % 256 ∷ swap_bytes ws

-- The loop that ends the string before its trailing blanks, from the end on.
unfoldable pub trim : ℕ → List ℕ → List ℕ
trim zero out = out
trim (suc i) out =
    let rest = trim i (set out i 0) in
    if byte_at out i == 32 || byte_at out i == 0 then rest else out

unfoldable pub extract_model_from_identify : List ℕ → List ℕ
unfolding swap_bytes trim
extract_model_from_identify id = trim 40 (swap_bytes (take 20 (drop 27 id)) ++ 0 ∷ [])

-- What a poll makes of the status that it reads.
pub data Verdict : Type 0 where
  done : Verdict
  again : Verdict
  failed_with : String → Verdict

-- The tests in `ide_wait_ready` and `ide_wait_not_busy`, whose messages differ.
abbrev pub unless_busy : String → ℕ → Verdict
unless_busy msg status =
    if bit 7 status then again else if bit 0 status || bit 5 status then failed_with msg else done

abbrev pub when_drq : ℕ → Verdict
when_drq status =
    if bit 0 status
    then failed_with "IDE DRQ error"
    else if bit 5 status
    then failed_with "IDE device fault"
    else if not (bit 7 status) && bit 3 status
    then done
    else again

-- Each word as two bytes, the low one first.
unfoldable pub to_bytes : List ℕ → List ℕ
to_bytes [] = []
to_bytes (w ∷ ws) = w % 256 ∷ w / 256 % 256 ∷ to_bytes ws

module _ (p : Ports) where
  -- A transfer register read or written for an IDE device.
  unfoldable pub ide_delay_400ns : Line p → ℕ → Line p
  ide_delay_400ns l io =
      (read8 p (read8 p (read8 p (read8 p l (io + 0x206)).1 (io + 0x206)).1 (io + 0x206)).1
        (io + 0x206)).1

  unfoldable pub error_ide : String → ℕ → ℕ → Line p → Status × Line p
  error_ide msg io status l =
      let r = read8 p l (io + 1) in
      (fail, record (r.1) { g_last_error = msg; g_last_status = status; g_last_error_reg = r.0 })

  -- The loop of the three waits, for so many attempts; `status` is the last one read.
  unfoldable pub poll : (ℕ → Verdict) → String → ℕ → ℕ → ℕ → Line p → Status × Line p
  poll judge timeout io zero status l = error_ide timeout io status l
  poll judge timeout io (suc k) status l =
      let r = read8 p l (io + 7) in
      elim (judge (r.0)) [
        | done ↦ (ok, r.1)
        | failed_with msg ↦ error_ide msg io (r.0) (r.1)
        | again ↦ poll judge timeout io k (r.0) (io_wait p (r.1))
      ]

  unfoldable pub ide_wait_ready : ℕ → Line p → Status × Line p
  ide_wait_ready io l =
      poll (unless_busy "IDE ready wait error") "IDE ready timeout" io ata_poll_attempts 0
        (ide_delay_400ns l io)

  unfoldable pub ide_wait_drq : ℕ → Line p → Status × Line p
  ide_wait_drq io l = poll when_drq "IDE DRQ timeout" io ata_poll_attempts 0 (ide_delay_400ns l io)

  unfoldable pub ide_wait_not_busy : ℕ → Line p → Status × Line p
  ide_wait_not_busy io l =
      poll (unless_busy "IDE completion error") "IDE completion timeout" io ata_poll_attempts 0
        (ide_delay_400ns l io)

  -- The registers of a transfer of one sector, and its command. The parts of the first value share
  -- no bits.
  unfoldable pub send_command : IdeDevice → ℕ → ℕ → Line p → Line p
  send_command dev lba command l =
      let io = dev.io_base in
      let a = write8 p l (io + 6) (0xE0 + dev.slave * 16 + lba / 2 ^ 24 % 16) in
      let b = write8 p (ide_delay_400ns a io) (io + 2) 1 in
      let c = write8 p b (io + 3) (lba % 256) in
      let d = write8 p c (io + 4) (lba / 2 ^ 8 % 256) in
      let e = write8 p d (io + 5) (lba / 2 ^ 16 % 256) in
      ide_delay_400ns (write8 p e (io + 7) command) io

  -- The loop over the words that a device delivers.
  unfoldable pub read_words : ℕ → ℕ → Line p → List ℕ × Line p
  read_words zero io l = ([], l)
  read_words (suc k) io l =
      let r = p.inw l.hw io in
      let rest = read_words k io (record l { hw = r.1 }) in (r.0 ∷ rest.0, rest.1)

  -- The loop over the words of a buffer, from word `i` on.
  unfoldable pub write_words : ℕ → ℕ → ℕ → List ℕ → Line p → Line p
  write_words zero i io buffer l = l
  write_words (suc k) i io buffer l = write_words k (suc i) io buffer (record l {
    hw = p.outw l.hw io (byte_at buffer (i * 2) % 256 + byte_at buffer (i * 2 + 1) % 256 * 256);
  })

  -- Past the checks of the device.
  unfoldable pub ide_transfer_in : IdeDevice → ℕ → Line p → Option (List ℕ) × Line p
  ide_transfer_in dev lba l =
      let ready = ide_wait_ready dev.io_base l in
      elim (ready.0) [
        | fail ↦ (none, ready.1)
        | ok ↦
            let drq = ide_wait_drq dev.io_base (send_command dev lba 0x20 (ready.1)) in
            elim (drq.0) [
              | fail ↦ (none, drq.1)
              | ok ↦
                  let words = read_words 256 dev.io_base (drq.1) in
                  (some (to_bytes (words.0)), error_ok p (words.1))
            ]
      ]

  unfoldable pub ide_read_sector : List IdeDevice → ℕ → ℕ → Line p → Option (List ℕ) × Line p
  ide_read_sector devices index lba l =
      let dev = get_or devices index (ide_device 0 0) in
      if leb 4 index
      then (none, record l { g_last_error = "IDE invalid read request" })
      else if not dev.present
      then (none, record l { g_last_error = "IDE device missing" })
      else ide_transfer_in dev lba l

  unfoldable pub ide_transfer_out : IdeDevice → ℕ → List ℕ → Line p → Status × Line p
  ide_transfer_out dev lba buffer l =
      let ready = ide_wait_ready dev.io_base l in
      elim (ready.0) [
        | fail ↦ (fail, ready.1)
        | ok ↦
            let drq = ide_wait_drq dev.io_base (send_command dev lba 0x30 (ready.1)) in
            elim (drq.0) [
              | fail ↦ (fail, drq.1)
              | ok ↦
                  let complete =
                    ide_wait_not_busy dev.io_base (write_words 256 0 dev.io_base buffer (drq.1)) in
                  elim (complete.0) [
                    | fail ↦ (fail, complete.1)
                    | ok ↦ (ok, error_ok p (complete.1))
                  ]
            ]
      ]

  unfoldable pub ide_write_sector : List IdeDevice → ℕ → ℕ → List ℕ → Line p → Status × Line p
  ide_write_sector devices index lba buffer l =
      let dev = get_or devices index (ide_device 0 0) in
      if leb 4 index
      then with_error p l "IDE invalid write request"
      else if not dev.present
      then with_error p l "IDE device missing"
      else ide_transfer_out dev lba buffer l

  -- `ide_flush_cache` for a device that is there.
  unfoldable pub flush_device : IdeDevice → Line p → Status × Line p
  flush_device dev l =
      let ready = ide_wait_ready dev.io_base l in
      elim (ready.0) [
        | fail ↦ (fail, ready.1)
        | ok ↦
            let selected = write8 p (ready.1) (dev.io_base + 6) (0xA0 + dev.slave * 16) in
            let complete =
              ide_wait_not_busy dev.io_base
                (write8 p (ide_delay_400ns selected dev.io_base) (dev.io_base + 7) 0xE7) in
            elim (complete.0) [ fail ↦ (fail, complete.1) | ok ↦ (ok, error_ok p (complete.1)) ]
      ]

  unfoldable pub ide_flush_cache : List IdeDevice → ℕ → Line p → Status × Line p
  ide_flush_cache devices index l =
      let dev = get_or devices index (ide_device 0 0) in
      if leb 4 index
      then with_error p l "IDE invalid flush request"
      else if not dev.present
      then with_error p l "IDE device missing"
      else flush_device dev l
