-- ===== src/Installer/Run/Cancelled.antt =====
-- kernel/installer.c: what a cancelled installation leaves of the disks.
use fur_os.Prelude.{
  ℕ, zero, suc, ◌-◌, ◌<◌, ◌≡◌, ◌≢◌, ◌⊎◌, inl, inr, refl, sym, ◌∙◌, none, some, List, [], ◌∷◌,
  length, arith, ltb, ◌==◌, branch, bool_branch, option_branch, Bool-cases, subst,
}
use fur_os.Disk.Drive.{Drive}
use fur_os.Disk.Store.{Disk, disk_init, disk_count}
use fur_os.Ata.Sectors.{AtaDebugState}
use fur_os.Installer.Wizard.{Wiz, next, halt, Setup}
use fur_os.Installer.Run.{
  Ending, complete, cancelled, no_disk, Halted, halt_with, stage_complete, show_no_disk, next_char,
  quit, run_stage, wizard, wizard_start, run_scanned, installer_run,
}
use fur_os.Installer.Run.Consumes.{Uses, run_stage-Uses, Uses-drive}
use fur_os.Installer.Run.Ends.{turn_branch, Installs, run_stage_last}

-- A property of the drives that the choice of a disk keeps.
module _ (a : Drive) (D : a.State → Type 0)
    (chooses : (s : a.State) (i : ℕ) → D s → D (a.select_device s i).1) where
  module _ (bootsect kernel : List ℕ) (entry_offset : ℕ) where
    -- What a cancelled run leaves of the drives.
    abbrev Spares : Halted a bootsect kernel entry_offset → Type 0
    Spares none = Unit {0}
    Spares (some r) = r.0 ≡ cancelled → D (r.2).disk.drive

    halt_with-Spares :
        (e : Ending) (w : Wiz) (m : Setup a) (keys : List ℕ)
        → e ≢ cancelled
        → Spares (halt_with a bootsect kernel entry_offset e w m keys)
    unfolding halt_with
    halt_with-Spares e w m [] h = tt
    halt_with-Spares e w m (_ ∷ rest) h = λ q. absurd (h q)

    complete-Spares :
        (w : Wiz) (m : Setup a) → Spares (stage_complete a bootsect kernel entry_offset w m)
    unfolding stage_complete
    complete-Spares w m = halt_with-Spares complete w _ m.keys (λ q. cc q)

    quit-Spares :
        (w : Wiz) (m : Setup a) → D m.disk.drive → Spares (quit a bootsect kernel entry_offset w m)
    unfolding quit
    quit-Spares w m d = option_branch Spares (next_char m.keys) (λ e. tt) (λ rest e. λ q. d)

    wizard-Spares :
        (k stage : ℕ) (w : Wiz) (m : Setup a)
        → ((7 < stage) ⊎ D m.disk.drive)
        → Spares (wizard a bootsect kernel entry_offset k stage w m)
    unfolding wizard
    wizard-Spares zero stage w m e = λ q. absurd (cc q)
    wizard-Spares (suc k) stage w m e =
        let run = run_stage a bootsect kernel entry_offset stage w m in
        bool_branch Spares (ltb 7 stage) (λ y. complete-Spares w m)
          (λ n.
            let d : D m.disk.drive = elim e [ inl h ↦ absurd (ground (arith, n, h)) | inr d ↦ d ] in
            elim (Bool-cases (stage == 7)) [
              | inl last ↦
                  let i : Installs a bootsect kernel entry_offset run =
                    subst
                      (λ j.
                        Installs a bootsect kernel entry_offset
                          (run_stage a bootsect kernel entry_offset j w m))
                      (ground (arith, last)) (run_stage_last a bootsect kernel entry_offset w m) in
                  option_branch Spares run (λ z. tt)
                    (λ r z.
                      let j : (r.0 ≡ next) ⊎ (r.0 ≡ halt) =
                        subst (Installs a bootsect kernel entry_offset) z i in
                      turn_branch Spares r.0
                        (λ t. wizard-Spares k (suc stage) r.1 r.2 (inl (ground (arith, last))))
                        (λ t. absurd (elim j [ inl x ↦ cc (x, t) | inr x ↦ cc (x, t) ]))
                        (λ t. absurd (elim j [ inl x ↦ cc (x, t) | inr x ↦ cc (x, t) ]))
                        (λ t. absurd (elim j [ inl x ↦ cc (x, t) | inr x ↦ cc (x, t) ]))
                        (λ t. λ q. absurd (cc q)))
              | inr early ↦
                  let l =
                    run_stage-Uses a D chooses bootsect kernel entry_offset stage w m
                      (ground (arith, n, early)) d in
                  option_branch Spares run (λ z. tt)
                    (λ r z.
                      let d' : D (r.2).disk.drive =
                        Uses-drive a D chooses (length m.keys) r
                          (subst (Uses a D chooses (length m.keys)) z l) in
                      turn_branch Spares r.0 (λ t. wizard-Spares k (suc stage) r.1 r.2 (inr d'))
                        (λ t. wizard-Spares k (stage - 1) r.1 r.2 (inr d'))
                        (λ t. wizard-Spares k stage r.1 r.2 (inr d')) (λ t. quit-Spares r.1 r.2 d')
                        (λ t. λ q. absurd (cc q)))
            ])

    -- Whatever holds of the drives after a scan that returns, and is kept by the selection of a disk,
    -- still holds where the installer ends because it was cancelled.
    pub installer_run-cancelled :
        (rounds : ℕ) (dbg : AtaDebugState) (m : Setup a) (d : Disk a) (w : Wiz) (n : Setup a)
        → disk_init a m.disk ≡ some d
        → D d.drive
        → installer_run a bootsect kernel entry_offset rounds dbg m ≡ some (cancelled, w, n)
        → D n.disk.drive
    installer_run-cancelled rounds dbg m disk w n returns d q =
        let f : Spares (run_scanned a bootsect kernel entry_offset rounds dbg m disk) =
          unfold run_scanned show_no_disk in
          branch Spares (disk_count a disk == 0)
            (λ e. halt_with-Spares no_disk wizard_start _ m.keys (λ z. cc z))
            (λ e. wizard-Spares rounds 0 wizard_start _ (inr d)) in
        let e : installer_run a bootsect kernel entry_offset rounds dbg m
            ≡ run_scanned a bootsect kernel entry_offset rounds dbg m disk =
          unfold installer_run in ground (arith, returns) in
        subst Spares (sym e ∙ q) f refl
