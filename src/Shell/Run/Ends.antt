-- ===== src/Shell/Run/Ends.antt =====
-- kernel/shell.c: the main loop ends or waits for input.
use fur_os.Prelude.{
  ℕ, zero, suc, ◌≤◌, ◌<◌, ◌≡◌, ◌≢◌, refl, ap, ◌||◌, not, Option, none, some, List, [], ◌∷◌, arith,
  length, ltb, ◌==◌, if◌then◌else◌, branch, option_branch, bool_branch, Bool-cases, inl, inr, codes,
}
use fur_os.KString.{str_eq}
use fur_os.Fs.Node.{fail, status_branch, fs_init}
use fur_os.Fs.Create.{fs_touch}
use fur_os.Fs.Files.{fs_read_file}
use fur_os.Disk.Drive.{Drive}
use fur_os.Disk.Store.{disk_available, disk_save_fs, disk_load_fs, disk_format_fs, disk_init, Disk}
use fur_os.Vga.{Screen}
use fur_os.Shell.State.{Shell}
use fur_os.Shell.Line.{on_char, read_line_from, shell_read_line, shell_parse}
use fur_os.Shell.Packages.{arg}
use fur_os.Shell.Nano.{Editor, on_edit, nano_loop, open_nano, cmd_nano}
use fur_os.Shell.Command.{is_command, shell_command}
use fur_os.Shell.Machine.{
  Machine, cmd_sync, save_installed, cmd_install, cmd_disk_load, cmd_disk_format, cmd_disk,
}
use fur_os.Shell.Run.{
  Session, exited, waiting, out_of_rounds, hanging, run_nano, restore_uid, as_root, cmd_sudo,
  shell_dispatch, prompt_screen, shell_loop, boot_scanned, boot_shell, shell_run, end_session,
}

-- Reading a line takes at least the key that ends it.
read_line_from-lt :
    (max_len : ℕ) (buf : List ℕ) (s : Screen) (input line : List ℕ) (t : Screen) (rest : List ℕ)
    → read_line_from max_len buf s input ≡ some (line, t, rest)
    → length rest < length input
unfolding read_line_from
read_line_from-lt max_len buf s [] line t rest h = absurd (cc h)
read_line_from-lt max_len buf s (c ∷ input) line t rest h = elim (Bool-cases (c == 10 || c == 13)) [
  | inl y ↦ let q : input ≡ rest = ground (arith, h, y) in omega (arith, ap length q)
  | inr n ↦ omega (
    arith,
    read_line_from-lt max_len (on_char max_len c buf s).0 (on_char max_len c buf s).1 input line t
        rest (ground (arith, h, n)),
  )
]

shell_read_line-lt :
    (max_len : ℕ) (s : Screen) (input line : List ℕ) (t : Screen) (rest : List ℕ)
    → shell_read_line max_len s input ≡ some (line, t, rest)
    → length rest < length input
unfolding shell_read_line
shell_read_line-lt max_len s input line t rest h =
    read_line_from-lt max_len [] s input line t rest h

nano_loop-le :
    (path : List ℕ) (e : Editor) (input : List ℕ) (s : Shell) (rest : List ℕ)
    → nano_loop path e input ≡ some (s, rest)
    → length rest ≤ length input
unfolding nano_loop
nano_loop-le path e [] s rest h = absurd (cc h)
nano_loop-le path e (c ∷ input) s rest h = elim (Bool-cases (c == 24)) [
  | inl y ↦ let q : input ≡ rest = ground (arith, h, y) in omega (arith, ap length q)
  | inr n ↦ omega (arith, nano_loop-le path (on_edit path c e) input s rest (ground (arith, h, n)))
]

-- What is left is no longer.
abbrev Left : ℕ → Option (Shell × List ℕ) → Type 0
Left size o = (s : Shell) (rest : List ℕ) → o ≡ some (s, rest) → length rest ≤ size

all-Left : (s : Shell) (input : List ℕ) → Left (length input) (some (s, input))
all-Left s input t rest h = let q : input ≡ rest = ground (arith, h) in omega (arith, ap length q)

cmd_nano-le :
    (s : Shell) (argv : List (List ℕ)) (input : List ℕ)
    → Left (length input) (cmd_nano s argv input)
unfolding cmd_nano
cmd_nano-le s argv input =
    let path : List ℕ = arg argv 1 in
    let P : Option (Shell × List ℕ) → Type 0 = Left (length input) in
    let u : Shell = record s { nodes = (fs_touch s.nodes s.shell_cwd path).1 } in
    branch P (ltb (length argv) 2) (λ y. all-Left _ input)
      (λ n.
        status_branch P (fs_touch s.nodes s.shell_cwd path).0
          (λ e.
            option_branch P (fs_read_file u.nodes u.shell_cwd path) (λ e. all-Left _ input)
              (λ r e. nano_loop-le path (open_nano u r.0 r.1) input))
          (λ e. all-Left _ input))

some_injective {ℓ} : {A : Type ℓ} {x y : A} → some x ≡ some y → x ≡ y
some_injective h = cc h

module _ (a : Drive) where
  -- The commands on the disk read no input.
  abbrev Same : Machine a → Machine a → Type 0
  Same m n = n.input ≡ m.input

  cmd_sync-input : (m : Machine a) → Same m (cmd_sync a m)
  unfolding cmd_sync
  cmd_sync-input m =
      status_branch (Same m) (disk_save_fs a m.disk m.shell.nodes).0 (λ e. refl) (λ e. refl)

  save_installed-input : (m : Machine a) → Same m (save_installed a m)
  unfolding save_installed
  save_installed-input m =
      status_branch (Same m) (disk_save_fs a m.disk m.shell.nodes).0 (λ e. refl) (λ e. refl)

  cmd_install-input : (m : Machine a) → Same m (cmd_install a m)
  unfolding cmd_install
  cmd_install-input m =
      branch (Same m) (not (disk_available a m.disk)) (λ y. refl)
        (λ n.
          status_branch (Same m) (disk_format_fs a m.disk).0 (λ e. save_installed-input _)
            (λ e. refl))

  cmd_disk-input : (m : Machine a) (argv : List (List ℕ)) → Same m (cmd_disk a m argv)
  unfolding cmd_disk cmd_disk_load cmd_disk_format
  cmd_disk-input m argv =
      branch (Same m) (ltb (length argv) 2) (λ y. refl)
        (λ n.
          branch (Same m) (str_eq (arg argv 1) (codes "info")) (λ y. refl)
            (λ n.
              branch (Same m) (str_eq (arg argv 1) (codes "load"))
                (λ y.
                  status_branch (Same m) (disk_load_fs a m.disk m.shell.nodes).0 (λ e. refl)
                    (λ e. refl))
                (λ n.
                  branch (Same m) (str_eq (arg argv 1) (codes "save")) (λ y. cmd_sync-input m)
                    (λ n.
                      branch (Same m) (str_eq (arg argv 1) (codes "format"))
                        (λ y.
                          status_branch (Same m) (disk_format_fs a m.disk).0 (λ e. refl)
                            (λ e. refl))
                        (λ n. refl)))))

  -- No command leaves more input than there was.
  abbrev Shorter : Machine a → Option (Machine a) → Type 0
  Shorter m o = (n : Machine a) → o ≡ some n → length n.input ≤ length m.input

  Same-Shorter : (m n : Machine a) → Same m n → Shorter m (some n)
  Same-Shorter m n e k h =
      let q : n ≡ k = some_injective h in
      omega (arith, ap length e, ap (λ (r : Machine a). length r.input) q)

  none-Shorter : (m : Machine a) → Shorter m none
  none-Shorter m n h = absurd (cc h)

  run_nano-Shorter : (m : Machine a) (argv : List (List ℕ)) → Shorter m (run_nano a m argv)
  unfolding run_nano
  run_nano-Shorter m argv =
      option_branch (Shorter m) (cmd_nano m.shell argv m.input) (λ e. none-Shorter m)
        (λ r e n h.
          let q : record m { shell = r.0; input = r.1 } ≡ n = some_injective h in
          omega (
            arith,
            cmd_nano-le m.shell argv m.input r.0 r.1 e,
            ap (λ (k : Machine a). length k.input) q,
          ))

  restore_uid-Shorter :
      (m : Machine a) (uid : ℕ) (o : Option (Machine a))
      → Shorter m o
      → Shorter m (restore_uid a uid o)
  unfolding restore_uid
  restore_uid-Shorter m uid none h n e = absurd (cc e)
  restore_uid-Shorter m uid (some r) h n e =
      let q : record r { shell = record (r.shell) { shell_uid = uid } } ≡ n = some_injective e in
      omega (arith, h r refl, ap (λ (r : Machine a). length r.input) q)

  shell_dispatch-Shorter :
      (m : Machine a) (argv : List (List ℕ)) → Shorter m (shell_dispatch a m argv)
  unfolding shell_dispatch
  shell_dispatch-Shorter m [] = Same-Shorter m m refl
  shell_dispatch-Shorter m (command ∷ args) =
      let argv : List (List ℕ) = command ∷ args in
      let ih : Shorter m (shell_dispatch a (as_root a m) args) =
        shell_dispatch-Shorter (as_root a m) args in
      branch (Shorter m) (is_command argv "nano") (λ y. run_nano-Shorter m argv)
        (λ n.
          branch (Shorter m) (is_command argv "sudo")
            (λ y.
              unfold cmd_sudo in
              branch (Shorter m) (ltb (length argv) 2) (λ y. Same-Shorter m _ refl)
                (λ n. restore_uid-Shorter m m.shell.shell_uid _ ih))
            (λ n.
              branch (Shorter m) (is_command argv "install")
                (λ y. Same-Shorter m _ (cmd_install-input m))
                (λ n.
                  branch (Shorter m) (is_command argv "disk")
                    (λ y. Same-Shorter m _ (cmd_disk-input m argv))
                    (λ n.
                      branch (Shorter m) (is_command argv "sync")
                        (λ y. Same-Shorter m _ (cmd_sync-input m))
                        (λ n.
                          option_branch (Shorter m) (shell_command m.shell argv)
                            (λ e. Same-Shorter m _ refl) (λ s e. Same-Shorter m _ refl))))))

  -- For more rounds than there are characters of input, the main loop does not run out of rounds:
  -- it leaves, or it waits for input.
  abbrev Ends : Session a → Type 0
  Ends o = (o ≢ out_of_rounds) × (o ≢ hanging)

  shell_loop-Ends :
      (rounds : ℕ) (m : Machine a) → length m.input < rounds → Ends (shell_loop a rounds m)
  unfolding shell_loop
  shell_loop-Ends zero m h = absurd (omega arith)
  shell_loop-Ends (suc rounds) m h =
      let P : Session a → Type 0 = Ends in
      bool_branch P m.shell.g_shell_exit (λ y. (λ e. cc e, λ e. cc e))
        (λ n.
          option_branch P (shell_read_line 256 (prompt_screen a m.shell) m.input)
            (λ e. (λ q. cc q, λ q. cc q))
            (λ r e.
              let at : Machine a = record m {
                shell = record (m.shell) { screen = r.1 };
                input = r.2;
              } in
              option_branch P (shell_dispatch a at (shell_parse r.0 16))
                (λ e. (λ q. cc q, λ q. cc q))
                (λ k d. shell_loop-Ends rounds k (
                  omega (
                    arith,
                    shell_read_line-lt 256 (prompt_screen a m.shell) m.input r.0 r.1 r.2 e,
                    shell_dispatch-Shorter at (shell_parse r.0 16) k d,
                  )))))

  boot_scanned-input : (m : Machine a) (d : Disk a) → (boot_scanned a m d).input ≡ m.input
  unfolding boot_scanned
  boot_scanned-input m d =
      let l = if disk_available a d then disk_load_fs a d fs_init else (fail, d, fs_init) in
      status_branch (λ (n : Machine a). n.input ≡ m.input) (l.0) (λ e. refl) (λ e. refl)

  end_session-Ends : (o : Session a) → Ends o → Ends (end_session a o)
  unfolding end_session
  end_session-Ends (exited n) e = (λ q. cc q, λ q. cc q)
  end_session-Ends waiting e = e
  end_session-Ends out_of_rounds e = e
  end_session-Ends hanging e = e

  -- Where the scan for disks returns, a session of the terminal, from its boot to the save at its
  -- end, comes to its end or waits for input: one more round than there are characters of input is
  -- enough for its main loop.
  pub shell_run_ends :
      (rounds : ℕ) (m : Machine a) (d : Disk a)
      → disk_init a m.disk ≡ some d
      → length m.input < rounds
      → (shell_run a rounds m ≢ out_of_rounds) × (shell_run a rounds m ≢ hanging)
  shell_run_ends rounds m d returns h =
      let n : Machine a = boot_scanned a m d in
      let q : shell_run a rounds m ≡ end_session a (shell_loop a rounds n) =
        unfold shell_run boot_shell in ground (arith, returns) in
      rw q (
        end_session-Ends (shell_loop a rounds n)
          (shell_loop-Ends rounds n (omega (arith, h, ap length (boot_scanned-input m d)))))
