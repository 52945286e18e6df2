-- ===== src/Ata/Probe.antt =====
-- kernel/ata.c: `ide_probe_device`.
pub mod Rounds
use fur_os.Prelude.{
  ℕ, zero, suc, ◌+◌, ◌*◌, ◌^◌, Bool, true, false, ◌||◌, not, Option, none, some, List, [], ◌∷◌,
  get_or, ◌==◌, if◌then◌else◌,
}
use fur_os.Fs.Node.{Status, ok, fail, zeros}
use fur_os.Ata.Bus.{Ports, Line, bit, read8, write8}
use fur_os.Ata.Ide.{
  IdeDevice, extract_model_from_identify, ide_delay_400ns, ide_wait_drq, read_words,
}

module _ (p : Ports) where
  -- `while ((status & ATA_SR_BSY) != 0)`, which has no bound in the source: `none` where the disk is
  -- busy for more reads than `rounds`.
  unfoldable pub until_ready : ℕ → ℕ → ℕ → Line p → Option (Line p)
  until_ready zero io status l = if bit 7 status then none else some l
  until_ready (suc k) io status l = elim (bit 7 status) [
    | false ↦ some l
    | true ↦ until_ready k io (read8 p l (io + 7)).0 (read8 p l (io + 7)).1
  ]

  -- The end of the probe, once the disk has its 256 words ready.
  unfoldable pub take_identify : IdeDevice → Line p → IdeDevice × Line p
  take_identify dev l =
      let words = read_words p 256 dev.io_base l in
      let id : List ℕ = words.0 in
      (
        record dev {
          present = true;
          identify = id;
          sectors28 = get_or id 60 0 + get_or id 61 0 * 2 ^ 16;
          model = extract_model_from_identify id;
        },
        words.1,
      )

  -- What the first lines of the probe leave of the device.
  abbrev pub forgotten : IdeDevice → IdeDevice
  forgotten dev = record dev {
    present = false;
    sectors28 = 0;
    model = zeros 41;
    identify = zeros 256;
  }

  unfoldable pub send_identify : IdeDevice → Line p → Line p
  send_identify dev l =
      let io = dev.io_base in
      let a = ide_delay_400ns p (write8 p l (io + 6) (0xA0 + dev.slave * 16)) io in
      let b = write8 p (write8 p a (io + 2) 0) (io + 3) 0 in
      let c = write8 p (write8 p b (io + 4) 0) (io + 5) 0 in write8 p c (io + 7) 0xEC

  -- What follows the loop of the probe.
  unfoldable pub take_answer : IdeDevice → Line p → IdeDevice × Line p
  take_answer dev l =
      let io = dev.io_base in
      let lba1 = read8 p l (io + 4) in
      let lba2 = read8 p (lba1.1) (io + 5) in
      if not (lba1.0 == 0) || not (lba2.0 == 0)
      then (dev, lba2.1)
      else (let drq = ide_wait_drq p io (lba2.1) in
          elim (drq.0) [ fail ↦ (dev, drq.1) | ok ↦ take_identify dev (drq.1) ])

  -- A device that is not there keeps `present` at false, which is all that the caller looks at.
  unfoldable pub ide_probe_device : ℕ → IdeDevice → Line p → Option (IdeDevice × Line p)
  ide_probe_device rounds dev l =
      let io = dev.io_base in
      let asked = read8 p (send_identify (forgotten dev) l) (io + 7) in
      if asked.0 == 0
      then some (forgotten dev, asked.1)
      else elim (until_ready rounds io (asked.0) (asked.1)) [
        | none ↦ none
        | some m ↦ some (take_answer (forgotten dev) m)
      ]
