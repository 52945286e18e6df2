-- ===== src/Ata/Ide/Waits.antt =====
-- kernel/ata.c: the waits and the command registers, against a disk that answers.
use fur_os.Prelude.{
  ℕ, zero, suc, ◌+◌, ◌-◌, ◌*◌, ◌/◌, ◌%◌, ◌^◌, ◌<◌, ◌≡◌, refl, ap, ◌∙◌, true, false, String, arith,
  ltb, if◌then◌else◌, Bool-cases, inl, inr,
}
use fur_os.Fs.Node.{Status, ok}
use fur_os.Ata.Bus.{Ports, Line, write8, io_wait}
use fur_os.Ata.Ide.{
  IdeDevice, Verdict, done, again, unless_busy, when_drq, ide_delay_400ns, poll, ide_wait_ready,
  ide_wait_drq, ide_wait_not_busy, send_command,
}
use fur_os.Ata.Ide.Pio.{Pio, Regs, idle, Speaks, tick, has_data, address, start}

module _ (p : Ports) (io slave : ℕ) (k : Speaks p io slave) where
  -- What the disk is, on a line.
  abbrev pub seen : Line p → Pio
  seen l = k.view l.hw

  pub after_delay :
      (l : Line p) → seen (ide_delay_400ns p l io) ≡ record (seen l) { busy = (seen l).busy - 4 }
  unfolding ide_delay_400ns
  after_delay l =
      let a = k.alt_tick l.hw in
      let b = k.alt_tick (p.inb l.hw (io + 0x206)).1 in
      let c = k.alt_tick (p.inb (p.inb l.hw (io + 0x206)).1 (io + 0x206)).1 in
      let d =
        k.alt_tick (p.inb (p.inb (p.inb l.hw (io + 0x206)).1 (io + 0x206)).1 (io + 0x206)).1 in
      let e : (seen l).busy - 1 - 1 - 1 - 1 ≡ (seen l).busy - 4 = omega arith in
      d ∙ ap tick (c ∙ ap tick (b ∙ ap tick a)) ∙ ap (λ n. record (seen l) { busy = n }) e

  -- A judge waits while the disk is busy and is done as soon as it is not.
  Waits : (ℕ → Verdict) → (Pio → Type 0) → Type 0
  Waits judge P =
      (l : Line p)
      → P (seen l)
      → judge (p.inb l.hw (io + 7)).0 ≡ (if ltb 0 (seen l).busy then again else done)

  poll_done :
      (judge : ℕ → Verdict) (timeout : String) (P : Pio → Type 0) (n status : ℕ) (l : Line p)
      → Waits judge P
      → ((v : Pio) (b : ℕ) → P v → P (record v { busy = b }))
      → P (seen l)
      → (seen l).busy < n
      → ((poll p judge timeout io n status l).0 ≡ ok)
        × (seen (poll p judge timeout io n status l).1 ≡ record (seen l) { busy = 0 })
  unfolding poll Waits
  poll_done judge timeout P zero status l w any h lt = absurd (omega arith)
  poll_done judge timeout P (suc n) status l w any h lt = elim (Bool-cases (ltb 0 (seen l).busy)) [
    | inr f ↦
        let e : judge (p.inb l.hw (io + 7)).0 ≡ done = ground (arith, w l h, f) in
        let z : (seen l).busy - 1 ≡ 0 = ground (arith, f) in
        rw (e, poll) (refl, k.status_tick l.hw ∙ ap (λ b. record (seen l) { busy = b }) z)
    | inl y ↦
        let e : judge (p.inb l.hw (io + 7)).0 ≡ again = ground (arith, w l h, y) in
        let next : Line p = io_wait p (record l { hw = (p.inb l.hw (io + 7)).1 }) in
        let q : seen next ≡ tick (seen l) = k.waited (p.inb l.hw (io + 7)).1 ∙ k.status_tick l.hw in
        let lt' : (seen next).busy < n = rw q (ground (arith, y, lt)) in
        let ih =
          poll_done judge timeout P n (p.inb l.hw (io + 7)).0 next w any
            (rw q (any (seen l) ((seen l).busy - 1) h)) lt' in
        rw (e, poll) (ih.0, ih.1 ∙ ap (λ (v : Pio). record v { busy = 0 }) q)
  ]

  abbrev Sound : Pio → Type 0
  Sound v = v.failed ≡ false

  abbrev HasData : Pio → Type 0
  HasData v = (has_data v.phase ≡ true) × (v.failed ≡ false)

  unless_busy-Waits : (msg : String) → Waits (unless_busy msg) Sound
  unfolding Waits
  unless_busy-Waits msg l h =
      ground (arith, k.status_busy l.hw, k.status_error l.hw h, k.status_fault l.hw h)

  when_drq-Waits : Waits when_drq HasData
  unfolding Waits
  when_drq-Waits l h = elim (Bool-cases (ltb 0 (seen l).busy)) [
    | inl y ↦
        ground (arith, y, k.status_busy l.hw, k.status_error l.hw h.1, k.status_fault l.hw h.1)
    | inr n ↦
        let z : (seen l).busy ≡ 0 = ground (arith, n) in
        ground (
          arith,
          n,
          h.0,
          k.status_busy l.hw,
          k.status_error l.hw h.1,
          k.status_fault l.hw h.1,
          k.status_drq l.hw z,
        )
  ]

  -- A wait ends well, and with the disk no longer busy.
  abbrev pub Settles : Line p → Status × Line p → Type 0
  Settles l r = (r.0 ≡ ok) × (seen r.1 ≡ record (seen l) { busy = 0 })

  delayed :
      (judge : ℕ → Verdict) (timeout : String) (P : Pio → Type 0) (l : Line p)
      → Waits judge P
      → ((v : Pio) (b : ℕ) → P v → P (record v { busy = b }))
      → P (seen l)
      → (seen l).busy < 1000000
      → Settles l (poll p judge timeout io 1000000 0 (ide_delay_400ns p l io))
  delayed judge timeout P l w any h lt =
      let q = after_delay l in
      let less : (seen (ide_delay_400ns p l io)).busy < 1000000 = rw q (omega (arith, lt)) in
      let r =
        poll_done judge timeout P 1000000 0 (ide_delay_400ns p l io) w any
          (rw q (any (seen l) ((seen l).busy - 4) h)) less in
      (r.0, r.1 ∙ ap (λ (v : Pio). record v { busy = 0 }) q)

  pub ready-Settles :
      (l : Line p)
      → (seen l).failed ≡ false
      → (seen l).busy < 1000000
      → Settles l (ide_wait_ready p io l)
  unfolding ide_wait_ready
  ready-Settles l h lt =
      delayed (unless_busy "IDE ready wait error") "IDE ready timeout" Sound l
        (unless_busy-Waits "IDE ready wait error") (λ v b h. h) h lt

  pub not_busy-Settles :
      (l : Line p)
      → (seen l).failed ≡ false
      → (seen l).busy < 1000000
      → Settles l (ide_wait_not_busy p io l)
  unfolding ide_wait_not_busy
  not_busy-Settles l h lt =
      delayed (unless_busy "IDE completion error") "IDE completion timeout" Sound l
        (unless_busy-Waits "IDE completion error") (λ v b h. h) h lt

  pub drq-Settles :
      (l : Line p)
      → has_data (seen l).phase ≡ true
      → (seen l).failed ≡ false
      → (seen l).busy < 1000000
      → Settles l (ide_wait_drq p io l)
  unfolding ide_wait_drq
  drq-Settles l h f lt =
      delayed when_drq "IDE DRQ timeout" HasData l when_drq-Waits (λ v b h. h) (h, f) lt

  -- The registers that `send_command` leaves.
  abbrev pub regs_for : ℕ → Regs
  regs_for lba = record {
    count = 1;
    lba0 = lba % 256;
    lba1 = lba / 2 ^ 8 % 256;
    lba2 = lba / 2 ^ 16 % 256;
    select = 0xE0 + slave * 16 + lba / 2 ^ 24 % 16;
  }

  -- A sector number of 28 bits goes through the registers unchanged.
  pub address-regs_for : (lba : ℕ) → address (regs_for lba) ≡ lba % 2 ^ 28
  address-regs_for lba = omega arith

  pub send_command_lem :
      (dev : IdeDevice) (lba command : ℕ) (l : Line p)
      → dev.io_base ≡ io
      → dev.slave ≡ slave
      → (seen l).busy ≡ 0
      → (seen l).phase ≡ idle
      → (seen l).failed ≡ false
      → lba % 2 ^ 28 < k.capacity
      → (d : ℕ) × (d < 1000000)
        × (seen (send_command p dev lba command l) ≡ record (seen l) {
          phase = start command (record (seen l) { regs = regs_for lba });
          regs = regs_for lba;
          busy = d;
        })
  unfolding send_command
  send_command_lem dev lba command l ei es z i sound within =
      let v : Pio = seen l in
      let at : Regs → Pio = λ r. record v { regs = r; busy = 0 } in
      let high : ℕ = 0xE0 + slave * 16 + lba / 2 ^ 24 % 16 in
      let a : Line p = write8 p l (io + 6) high in
      let qa : seen a ≡ at (record (v.regs) { select = high }) =
        k.out_select l.hw high z
        ∙ ap (λ b. record v { regs = record (v.regs) { select = high }; busy = b }) z in
      let a' : Line p = ide_delay_400ns p a io in
      let qa' : seen a' ≡ at (record (v.regs) { select = high }) =
        after_delay a ∙ ap (λ (v : Pio). record v { busy = v.busy - 4 }) qa in
      let b : Line p = write8 p a' (io + 2) 1 in
      let qb : seen b ≡ at (record (v.regs) { select = high; count = 1 }) =
        k.out_count a'.hw 1 (rw qa' refl)
        ∙ ap (λ (v : Pio). record v { regs = record (v.regs) { count = 1 } }) qa' in
      let c : Line p = write8 p b (io + 3) (lba % 256) in
      let qc : seen c ≡ at (record (v.regs) { select = high; count = 1; lba0 = lba % 256 }) =
        k.out_lba0 b.hw (lba % 256) (rw qb refl)
        ∙ ap (λ (v : Pio). record v { regs = record (v.regs) { lba0 = lba % 256 } }) qb in
      let e : Line p = write8 p c (io + 4) (lba / 2 ^ 8 % 256) in
      let qe : seen e ≡ at (record (regs_for lba) { lba2 = v.regs.lba2 }) =
        k.out_lba1 c.hw (lba / 2 ^ 8 % 256) (rw qc refl)
        ∙ ap (λ (v : Pio). record v { regs = record (v.regs) { lba1 = lba / 2 ^ 8 % 256 } }) qc in
      let f : Line p = write8 p e (io + 5) (lba / 2 ^ 16 % 256) in
      let qf : seen f ≡ at (regs_for lba) =
        k.out_lba2 e.hw (lba / 2 ^ 16 % 256) (rw qe refl)
        ∙ ap (λ (v : Pio). record v { regs = record (v.regs) { lba2 = lba / 2 ^ 16 % 256 } }) qe in
      let (d, lt, qg) =
        k.out_command f.hw command (rw qf refl) (rw qf i) (rw qf sound)
          (rw qf (rw (address-regs_for lba) within)) (rw qf refl) (rw qf (omega arith)) in
      let g : Line p = write8 p f (io + 7) command in
      rw (ei, es)
        (
          d - 4,
          omega (arith, lt),
          after_delay g
              ∙ ap (λ (v : Pio). record v { busy = v.busy - 4 }) qg
              ∙ ap (λ (v : Pio). record v { phase = start command v; busy = d - 4 }) qf,
        )
