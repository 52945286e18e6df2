-- ===== src/Installer/Run/Ends.antt =====
-- kernel/installer.c: how many stages the wizard takes.
use fur_os.Prelude.{
  ℕ, zero, suc, ◌+◌, ◌-◌, ◌<◌, ◌≤◌, ◌≡◌, ◌≢◌, ◌⊎◌, inl, inr, refl, sym, ◌∙◌, Option, none, some,
  List, [], ◌∷◌, length, arith, ltb, ◌==◌, branch, bool_branch, option_branch, Bool-cases, subst,
}
use fur_os.Fs.Node.{Status, ok, fail}
use fur_os.Disk.Drive.{Drive}
use fur_os.Disk.Store.{Disk, disk_init, disk_count}
use fur_os.Ata.Sectors.{AtaDebugState}
use fur_os.Installer.Wizard.{Wiz, Turn, next, back, cancel, retry, halt, Setup, key_then}
use fur_os.Installer.Install.{step_failed, after_save, after_format, after_system, stage_install}
use fur_os.Installer.Run.Consumes.{Uses, run_stage-Uses, Uses-Left}
use fur_os.Installer.Run.{
  Ending, complete, no_disk, unfinished, hanging, Halted, halt_with, stage_complete, show_no_disk,
  next_char, quit, run_stage, wizard, wizard_start, run_scanned, installer_run,
}

pub turn_branch {ℓ κ} :
    {A : Type ℓ} {a b c d e : A}
    → (P : A → Type κ) (t : Turn) → (t ≡ next → P a)
    → (t ≡ back → P b)
    → (t ≡ retry → P c)
    → (t ≡ cancel → P d)
    → (t ≡ halt → P e)
    → P (elim t [ next ↦ a | back ↦ b | retry ↦ c | cancel ↦ d | halt ↦ e ])
turn_branch P next f g h i j = f refl
turn_branch P back f g h i j = g refl
turn_branch P retry f g h i j = h refl
turn_branch P cancel f g h i j = i refl
turn_branch P halt f g h i j = j refl

module _ (a : Drive) (bootsect kernel : List ℕ) (entry_offset : ℕ) where
  -- The machine has not stopped for want of rounds, or in the scan for disks.
  abbrev Finishes : Halted a bootsect kernel entry_offset → Type 0
  Finishes none = Unit {0}
  Finishes (some r) = (r.0 ≢ unfinished) × (r.0 ≢ hanging)

  -- An installation goes on or halts.
  abbrev pub Installs : Option (Turn × Wiz × Setup a) → Type 0
  Installs none = Unit {0}
  Installs (some r) = (r.0 ≡ next) ⊎ (r.0 ≡ halt)

  key_then-Installs : (w : Wiz) (m : Setup a) (keys : List ℕ) → Installs (key_then a halt w m keys)
  unfolding key_then
  key_then-Installs w m [] = tt
  key_then-Installs w m (_ ∷ rest) = inr refl

  after_save-Installs :
      (c : Status) (w : Wiz) (m : Setup a)
      → Installs (after_save a bootsect kernel entry_offset c w m)
  unfolding after_save step_failed
  after_save-Installs fail w m = key_then-Installs w _ m.keys
  after_save-Installs ok w m = inl refl

  after_format-Installs :
      (c : Status) (w : Wiz) (m : Setup a)
      → Installs (after_format a bootsect kernel entry_offset c w m)
  unfolding after_format step_failed
  after_format-Installs fail w m = key_then-Installs w _ m.keys
  after_format-Installs ok w m = after_save-Installs _ w _

  after_system-Installs :
      (c : Status) (w : Wiz) (m : Setup a)
      → Installs (after_system a bootsect kernel entry_offset c w m)
  unfolding after_system step_failed
  after_system-Installs fail w m = key_then-Installs w _ m.keys
  after_system-Installs ok w m = after_format-Installs _ w _

  stage_install-Installs :
      (w : Wiz) (m : Setup a) → Installs (stage_install a bootsect kernel entry_offset w m)
  unfolding stage_install
  stage_install-Installs w m = after_system-Installs _ w _

  pub run_stage_last :
      (w : Wiz) (m : Setup a) → Installs (run_stage a bootsect kernel entry_offset 7 w m)
  unfolding run_stage
  run_stage_last w m = stage_install-Installs w m

  halt_with-Finishes :
      (e : Ending) (w : Wiz) (m : Setup a) (keys : List ℕ)
      → (e ≢ unfinished) × (e ≢ hanging)
      → Finishes (halt_with a bootsect kernel entry_offset e w m keys)
  unfolding halt_with
  halt_with-Finishes e w m [] h = tt
  halt_with-Finishes e w m (_ ∷ rest) h = h

  complete-Finishes :
      (w : Wiz) (m : Setup a) → Finishes (stage_complete a bootsect kernel entry_offset w m)
  unfolding stage_complete
  complete-Finishes w m = halt_with-Finishes complete w _ m.keys (λ e. cc e, λ e. cc e)

  quit-Finishes : (w : Wiz) (m : Setup a) → Finishes (quit a bootsect kernel entry_offset w m)
  unfolding quit
  quit-Finishes w m =
      option_branch Finishes (next_char m.keys) (λ e. tt) (λ rest e. (λ q. cc q, λ q. cc q))

  -- The rounds that are enough from a stage on.
  abbrev Enough : ℕ → ℕ → ℕ → Type 0
  Enough k stage n = ((7 < stage) × (0 < k)) ⊎ (n + 2 ≤ k)

  wizard-Finishes :
      (k stage : ℕ) (w : Wiz) (m : Setup a)
      → Enough k stage (length m.keys)
      → Finishes (wizard a bootsect kernel entry_offset k stage w m)
  unfolding wizard
  wizard-Finishes zero stage w m (inl (h, lt)) = absurd (omega (arith, lt))
  wizard-Finishes zero stage w m (inr le) = absurd (omega (arith, le))
  wizard-Finishes (suc k) stage w m e =
      let run = run_stage a bootsect kernel entry_offset stage w m in
      bool_branch Finishes (ltb 7 stage) (λ y. complete-Finishes w m)
        (λ n.
          let le : length m.keys + 2 ≤ suc k = elim e [
            | inl h ↦ absurd (ground (arith, n, h.0))
            | inr le ↦ le
          ] in
          elim (Bool-cases (stage == 7)) [
            | inl last ↦
                let i : Installs run =
                  subst (λ j. Installs (run_stage a bootsect kernel entry_offset j w m))
                    (ground (arith, last)) (run_stage_last w m) in
                option_branch Finishes run (λ z. tt)
                  (λ r z.
                    let j : (r.0 ≡ next) ⊎ (r.0 ≡ halt) = subst Installs z i in
                    turn_branch Finishes r.0
                      (λ t.
                        wizard-Finishes k (suc stage) r.1 r.2
                          (inl (ground (arith, last), ground (arith, le))))
                      (λ t. absurd (elim j [ inl x ↦ cc (x, t) | inr x ↦ cc (x, t) ]))
                      (λ t. absurd (elim j [ inl x ↦ cc (x, t) | inr x ↦ cc (x, t) ]))
                      (λ t. quit-Finishes r.1 r.2) (λ t. (λ q. cc q, λ q. cc q)))
            | inr early ↦
                let D : a.State → Type 0 = λ s. Unit {0} in
                let u =
                  run_stage-Uses a D (λ s i d. tt) bootsect kernel entry_offset stage w m
                    (ground (arith, n, early)) tt in
                option_branch Finishes run (λ z. tt)
                  (λ r z.
                    let lt : r.0 ≢ cancel → length (r.2).keys < length m.keys = λ c.
                      (Uses-Left a D (λ s i d. tt) (length m.keys) r c
                        (subst (Uses a D (λ s i d. tt) (length m.keys)) z u)).0 in
                    turn_branch Finishes r.0
                      (λ t.
                        wizard-Finishes k (suc stage) r.1 r.2
                          (inr (omega (arith, le, lt (λ q. cc (q, t))))))
                      (λ t.
                        wizard-Finishes k (stage - 1) r.1 r.2
                          (inr (omega (arith, le, lt (λ q. cc (q, t))))))
                      (λ t.
                        wizard-Finishes k stage r.1 r.2
                          (inr (omega (arith, le, lt (λ q. cc (q, t))))))
                      (λ t. quit-Finishes r.1 r.2) (λ t. (λ q. cc q, λ q. cc q)))
          ])

  -- Where the scan for disks returns, two rounds more than there are keys are enough for the
  -- installer: it comes to a halt, or waits for a key.
  pub installer_run-ends :
      (rounds : ℕ) (dbg : AtaDebugState) (m : Setup a) (d : Disk a) (w : Wiz) (n : Setup a)
      → disk_init a m.disk ≡ some d
      → length m.keys + 2 ≤ rounds
      → (installer_run a bootsect kernel entry_offset rounds dbg m ≢ some (unfinished, w, n))
        × (installer_run a bootsect kernel entry_offset rounds dbg m ≢ some (hanging, w, n))
  installer_run-ends rounds dbg m d w n returns le =
      let f : Finishes (run_scanned a bootsect kernel entry_offset rounds dbg m d) =
        unfold run_scanned show_no_disk in
        branch Finishes (disk_count a d == 0)
          (λ e. halt_with-Finishes no_disk wizard_start _ m.keys (λ z. cc z, λ z. cc z))
          (λ e. wizard-Finishes rounds 0 wizard_start _ (inr le)) in
      let e : installer_run a bootsect kernel entry_offset rounds dbg m
          ≡ run_scanned a bootsect kernel entry_offset rounds dbg m d =
        unfold installer_run in ground (arith, returns) in
      (λ q. (subst Finishes (sym e ∙ q) f).0 refl, λ q. (subst Finishes (sym e ∙ q) f).1 refl)
