-- ===== src/Ata/Probe/Rounds.antt =====
-- kernel/ata.c: when the loop of `ide_probe_device` ends.
use fur_os.Prelude.{
  ℕ, zero, suc, ◌+◌, ◌≤◌, ◌<◌, ◌≡◌, ◌≢◌, refl, true, false, none, arith, branch, option_branch,
  bool_branch, ◌==◌,
}
use fur_os.Ata.Bus.{Ports, Line, bit, read8}
use fur_os.Ata.Ide.{IdeDevice}
use fur_os.Ata.Probe.{until_ready, send_identify, forgotten, ide_probe_device}

module _ (p : Ports) where
  -- The status that read number `n` of a sequence of reads returns.
  unfoldable pub status_after : ℕ → ℕ → Line p → ℕ
  status_after zero io l = (read8 p l (io + 7)).0
  status_after (suc n) io l = status_after n io (read8 p l (io + 7)).1

  abbrev pub sent : IdeDevice → Line p → Line p
  sent dev l = send_identify p (forgotten p dev) l

  never :
      (rounds io status : ℕ) (l : Line p)
      → bit 7 status ≡ true
      → ((n : ℕ) → bit 7 (status_after n io l) ≡ true)
      → until_ready p rounds io status l ≡ none
  unfolding until_ready status_after
  never zero io status l b h =
      branch (λ r. r ≡ none) (bit 7 status) (λ e. refl) (λ e. absurd (cc (e, b)))
  never (suc k) io status l b h =
      bool_branch (λ r. r ≡ none) (bit 7 status)
        (λ e. never k io (read8 p l (io + 7)).0 (read8 p l (io + 7)).1 (h 0) (λ n. h (suc n)))
        (λ e. absurd (cc (e, b)))

  -- Where every status that the channel gives after the command has the busy bit set, as on a channel
  -- without disks that reads as ones, the probe ends within no number of reads.
  pub ide_probe_device-none :
      (dev : IdeDevice) (l : Line p)
      → ((n : ℕ) → bit 7 (status_after n dev.io_base (sent dev l)) ≡ true)
      → (rounds : ℕ) → ide_probe_device p rounds dev l ≡ none
  unfolding ide_probe_device status_after
  ide_probe_device-none dev l h rounds =
      let io : ℕ = dev.io_base in
      let first = read8 p (sent dev l) (io + 7) in
      branch (λ r. r ≡ none) (first.0 == 0) (λ z. absurd (ground (arith, z, h 0)))
        (λ z.
          option_branch (λ r. r ≡ none) (until_ready p rounds io first.0 first.1) (λ e. refl)
            (λ m e. absurd (cc (e, never rounds io first.0 first.1 (h 0) (λ n. h (suc n))))))

  ends_now :
      (rounds io status : ℕ) (l : Line p)
      → bit 7 status ≡ false
      → until_ready p rounds io status l ≢ none
  unfolding until_ready
  ends_now zero io status l h =
      branch (λ r. r ≢ none) (bit 7 status) (λ e. absurd (cc (e, h))) (λ e. λ q. cc q)
  ends_now (suc k) io status l h =
      bool_branch (λ r. r ≢ none) (bit 7 status) (λ e. absurd (cc (e, h))) (λ e. λ q. cc q)

  ends :
      (n rounds io status : ℕ) (l : Line p)
      → bit 7 (status_after n io l) ≡ false
      → n < rounds
      → until_ready p rounds io status l ≢ none
  unfolding until_ready status_after
  ends n zero io status l h lt = absurd (omega (arith, lt))
  ends zero (suc k) io status l h lt =
      bool_branch (λ r. r ≢ none) (bit 7 status)
        (λ e. ends_now k io (read8 p l (io + 7)).0 (read8 p l (io + 7)).1 h) (λ e. λ q. cc q)
  ends (suc n) (suc k) io status l h lt =
      bool_branch (λ r. r ≢ none) (bit 7 status)
        (λ e. ends n k io (read8 p l (io + 7)).0 (read8 p l (io + 7)).1 h (omega (arith, lt)))
        (λ e. λ q. cc q)

  ready :
      (n rounds : ℕ) (dev : IdeDevice) (l : Line p)
      → bit 7 (status_after n dev.io_base l) ≡ false
      → n ≤ rounds
      → until_ready p rounds dev.io_base
          (read8 p l (dev.io_base + 7)).0
          (read8 p l (dev.io_base + 7)).1
        ≢ none
  unfolding status_after
  ready zero rounds dev l h le =
      ends_now rounds dev.io_base (read8 p l (dev.io_base + 7)).0 (read8 p l (dev.io_base + 7)).1 h
  ready (suc n) rounds dev l h le =
      ends n rounds dev.io_base (read8 p l (dev.io_base + 7)).0 (read8 p l (dev.io_base + 7)).1 h
        (omega (arith, le))

  -- Where status number `n` after the command has the busy bit clear, the probe ends within `n` reads.
  pub ide_probe_device-ends :
      (n rounds : ℕ) (dev : IdeDevice) (l : Line p)
      → bit 7 (status_after n dev.io_base (sent dev l)) ≡ false
      → n ≤ rounds
      → ide_probe_device p rounds dev l ≢ none
  unfolding ide_probe_device
  ide_probe_device-ends n rounds dev l h le =
      let io : ℕ = dev.io_base in
      let first = read8 p (sent dev l) (io + 7) in
      branch (λ r. r ≢ none) (first.0 == 0) (λ z. λ q. cc q)
        (λ z.
          option_branch (λ r. r ≢ none) (until_ready p rounds io first.0 first.1)
            (λ e. absurd (ready n rounds dev (sent dev l) h le e)) (λ m e. λ q. cc q))
