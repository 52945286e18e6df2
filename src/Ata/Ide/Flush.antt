-- ===== src/Ata/Ide/Flush.antt =====
-- kernel/ata.c: the flush of a disk that answers.
use fur_os.Prelude.{ℕ, ◌+◌, ◌-◌, ◌*◌, ◌<◌, ◌≡◌, refl, ap, ◌∙◌, true, List, arith, get_or}
use fur_os.Fs.Node.{Status, status_branch}
use fur_os.Ata.Bus.{Ports, Line, write8}
use fur_os.Ata.Ide.{
  IdeDevice, ide_device, ide_delay_400ns, ide_wait_ready, ide_wait_not_busy, flush_device,
  ide_flush_cache,
}
use fur_os.Ata.Ide.Pio.{Pio, Regs, Speaks}
use fur_os.Ata.Ide.Waits.{after_delay, ready-Settles, not_busy-Settles}
use fur_os.Ata.Ide.Transfers.{IsServing}

module _ (p : Ports) (dev : IdeDevice) (k : Speaks p dev.io_base dev.slave) where
  -- What a flush leaves of a disk: its drive register selects it, and nothing else changes.
  abbrev pub Flushed : Line p → Line p → Type 0
  Flushed l m = k.view m.hw ≡ record (k.view l.hw) {
    regs = record ((k.view l.hw).regs) { select = 0xA0 + dev.slave * 16 };
    busy = 0;
  }

  flush_device-Flushed :
      (l : Line p) → IsServing p dev.io_base dev.slave k l → Flushed l (flush_device p dev l).1
  unfolding flush_device
  flush_device-Flushed l s =
      let io : ℕ = dev.io_base in
      let v : Pio = k.view l.hw in
      let high : ℕ = 0xA0 + dev.slave * 16 in
      let ready : Status × Line p = ide_wait_ready p io l in
      let (ok1, q1) = ready-Settles p io dev.slave k l s.sound s.patient in
      let a : Line p = write8 p ready.1 (io + 6) high in
      let regs : Regs = record (v.regs) { select = high } in
      let qa : k.view a.hw ≡ record v { regs = regs; busy = 0 } =
        k.out_select ready.1.hw high (rw q1 refl)
        ∙ ap (λ (v : Pio). record v { regs = record (v.regs) { select = high } }) q1 in
      let b : Line p = ide_delay_400ns p a io in
      let qb : k.view b.hw ≡ record v { regs = regs; busy = 0 } =
        after_delay p io dev.slave k a ∙ ap (λ (v : Pio). record v { busy = v.busy - 4 }) qa in
      let (d, less, qc) =
        k.out_flush b.hw (rw qb refl) (rw qb s.phase) (rw qb s.sound) (rw qb (omega arith)) in
      let c : Line p = write8 p b (io + 7) 0xE7 in
      let qd : k.view c.hw ≡ record v { regs = regs; busy = d } =
        qc ∙ ap (λ (v : Pio). record v { busy = d }) qb in
      let complete : Status × Line p = ide_wait_not_busy p io c in
      let (ok2, q2) = not_busy-Settles p io dev.slave k c (rw qd s.sound) (rw qd less) in
      let last : k.view complete.1.hw ≡ record v { regs = regs; busy = 0 } =
        q2 ∙ ap (λ (v : Pio). record v { busy = 0 }) qd in
      let P : Status × Line p → Type 0 = λ r. Flushed l r.1 in
      status_branch P ready.0 (λ r. status_branch P complete.0 (λ r. last) (λ r. last))
        (λ r. absurd (cc (r, ok1)))

  pub ide_flush_cache-Flushed :
      (devices : List IdeDevice) (i : ℕ) (l : Line p)
      → i < 4
      → get_or devices i (ide_device 0 0) ≡ dev
      → dev.present ≡ true
      → IsServing p dev.io_base dev.slave k l
      → Flushed l (ide_flush_cache p devices i l).1
  ide_flush_cache-Flushed devices i l lt e here s =
      let there : (get_or devices i (ide_device 0 0)).present ≡ true =
        ap (λ (d : IdeDevice). d.present) e ∙ here in
      let q : ide_flush_cache p devices i l ≡ flush_device p (get_or devices i (ide_device 0 0)) l =
        unfold ide_flush_cache in ground (arith, lt, there) in
      rw (q, e) (flush_device-Flushed l s)
