-- ===== src/Shell/Run/User.antt =====
-- kernel/shell.c: no command line changes the user that the shell runs as.
use fur_os.Prelude.{
  ℕ, ◌≡◌, refl, inl, inr, Bool-cases, not, Option, none, some, List, [], ◌∷◌, arith, length, ltb,
  ◌==◌, branch, option_branch,
}
use fur_os.Fs.Node.{status_branch}
use fur_os.Fs.Create.{fs_touch}
use fur_os.Fs.Files.{fs_read_file}
use fur_os.Disk.Drive.{Drive}
use fur_os.Shell.State.{Shell}
use fur_os.Shell.Packages.{arg, package_is_installed, network_manager, sync_state_with_packages}
use fur_os.Shell.Network.Closed.{IsClosed, keeps_cmd_apt, keeps_cmd_networkmanager, keeps_cmd_nmcli}
use fur_os.Shell.Access.{ensure_parent_writable, require_root}
use fur_os.Shell.Files.{
  list_entries, cmd_ls, cmd_pwd, cmd_cd, cmd_mkdir, cmd_touch, cmd_cat, cmd_write, cmd_rm,
  cmd_chmod, cmd_chown,
}
use fur_os.Shell.Info.{cmd_help, cmd_whoami, cmd_id, cmd_ifconfig}
use fur_os.Shell.Nano.{
  Editor, save_buffer, type_char, erase_char, on_edit, leave_nano, nano_loop, open_nano, cmd_nano,
}
use fur_os.Shell.Command.{is_command, shell_command, cmd_logout}
use fur_os.Shell.Machine.{
  Machine, cmd_sync, save_installed, cmd_install, cmd_disk_load, cmd_disk_format, cmd_disk,
}
use fur_os.Shell.Run.{run_nano, restore_uid, as_root, cmd_sudo, not_found, shell_dispatch}

module _ (uid : ℕ) where
  abbrev RunsAs : Shell → Type 0
  RunsAs s = s.shell_uid ≡ uid

  sync-RunsAs : (s : Shell) → RunsAs s → RunsAs (sync_state_with_packages s)
  unfolding sync_state_with_packages
  sync-RunsAs s v = branch RunsAs (not (package_is_installed s network_manager)) (λ y. v) (λ n. v)

  RunsAs-closed : IsClosed RunsAs
  RunsAs-closed = record {
    printed = λ texts s v. v;
    changed = λ i value texts s v. sync-RunsAs _ v;
    indexed = λ s v. v;
    started = λ s v. v;
    stopped = λ s v. v;
    radio_on = λ s v. v;
    radio_off = λ s v. v;
    joined = λ s name i r e v. v;
  }

  module _ (s : Shell) (v : RunsAs s) (argv : List (List ℕ)) (by_user : ℕ) where
    cmd_pwd-RunsAs : RunsAs (cmd_pwd s)
    unfolding cmd_pwd
    cmd_pwd-RunsAs = ground (arith, v)

    cmd_ls-RunsAs : RunsAs (cmd_ls s argv by_user)
    unfolding cmd_ls list_entries
    cmd_ls-RunsAs = ground (arith, v)

    cmd_cd-RunsAs : RunsAs (cmd_cd s argv by_user)
    unfolding cmd_cd
    cmd_cd-RunsAs = ground (arith, v)

    cmd_mkdir-RunsAs : RunsAs (cmd_mkdir s argv by_user)
    unfolding cmd_mkdir ensure_parent_writable
    cmd_mkdir-RunsAs = ground (arith, v)

    cmd_touch-RunsAs : RunsAs (cmd_touch s argv by_user)
    unfolding cmd_touch ensure_parent_writable
    cmd_touch-RunsAs = ground (arith, v)

    cmd_cat-RunsAs : RunsAs (cmd_cat s argv by_user)
    unfolding cmd_cat
    cmd_cat-RunsAs = ground (arith, v)

    cmd_write-RunsAs : RunsAs (cmd_write s argv)
    unfolding cmd_write
    cmd_write-RunsAs = ground (arith, v)

    cmd_rm-RunsAs : RunsAs (cmd_rm s argv)
    unfolding cmd_rm
    cmd_rm-RunsAs = ground (arith, v)

    cmd_chmod-RunsAs : RunsAs (cmd_chmod s argv by_user)
    unfolding cmd_chmod
    cmd_chmod-RunsAs = ground (arith, v)

    cmd_chown-RunsAs : RunsAs (cmd_chown s argv by_user)
    unfolding cmd_chown require_root
    cmd_chown-RunsAs = ground (arith, v)

  ifconfig-RunsAs : (s : Shell) → RunsAs s → RunsAs (cmd_ifconfig s)
  unfolding cmd_ifconfig
  ifconfig-RunsAs s v = ground (arith, v)

  command-RunsAs :
      (s t : Shell) (argv : List (List ℕ)) → RunsAs s → shell_command s argv ≡ some t → RunsAs t
  unfolding shell_command cmd_help cmd_whoami cmd_id cmd_logout
  command-RunsAs s t argv v h = ground (
    arith,
    v,
    h,
    cmd_pwd-RunsAs s v argv s.shell_uid,
    cmd_ls-RunsAs s v argv s.shell_uid,
    cmd_cd-RunsAs s v argv s.shell_uid,
    cmd_mkdir-RunsAs s v argv s.shell_uid,
    cmd_touch-RunsAs s v argv s.shell_uid,
    cmd_cat-RunsAs s v argv s.shell_uid,
    cmd_write-RunsAs s v argv s.shell_uid,
    cmd_rm-RunsAs s v argv s.shell_uid,
    cmd_chmod-RunsAs s v argv s.shell_uid,
    cmd_chown-RunsAs s v argv s.shell_uid,
    keeps_cmd_apt RunsAs RunsAs-closed s argv v,
    keeps_cmd_networkmanager RunsAs RunsAs-closed s argv v,
    keeps_cmd_nmcli RunsAs RunsAs-closed s argv v,
    ifconfig-RunsAs s v,
  )

  on_edit-RunsAs :
      (path : List ℕ) (c : ℕ) (e : Editor) → RunsAs e.shell → RunsAs (on_edit path c e).shell
  unfolding on_edit save_buffer type_char erase_char
  on_edit-RunsAs path c e v = ground (arith, v)

  leave_nano-RunsAs : (path : List ℕ) (e : Editor) → RunsAs e.shell → RunsAs (leave_nano path e)
  unfolding leave_nano save_buffer
  leave_nano-RunsAs path e v = ground (arith, v)

  nano_loop-RunsAs :
      (path : List ℕ) (e : Editor) (input : List ℕ) (s : Shell) (rest : List ℕ)
      → RunsAs e.shell
      → nano_loop path e input ≡ some (s, rest)
      → RunsAs s
  unfolding nano_loop
  nano_loop-RunsAs path e [] s rest v h = absurd (cc h)
  nano_loop-RunsAs path e (c ∷ input) s rest v h = elim (Bool-cases (c == 24)) [
    | inl y ↦ ground (arith, h, y, leave_nano-RunsAs path e v)
    | inr n ↦
        nano_loop-RunsAs path (on_edit path c e) input s rest (on_edit-RunsAs path c e v)
          (ground (arith, h, n))
  ]

  cmd_nano-RunsAs :
      (s : Shell) (argv : List (List ℕ)) (input : List ℕ) (t : Shell) (rest : List ℕ)
      → RunsAs s
      → cmd_nano s argv input ≡ some (t, rest)
      → RunsAs t
  unfolding cmd_nano
  cmd_nano-RunsAs s argv input t rest v =
      let path : List ℕ = arg argv 1 in
      let u : Shell = record s { nodes = (fs_touch s.nodes s.shell_cwd path).1 } in
      let P : Option (Shell × List ℕ) → Type 0 =
        λ o. (t : Shell) (rest : List ℕ) → o ≡ some (t, rest) → RunsAs t in
      branch P (ltb (length argv) 2) (λ y t rest h. ground (arith, h, v))
        (λ n.
          status_branch P (fs_touch s.nodes s.shell_cwd path).0
            (λ e.
              option_branch P (fs_read_file u.nodes u.shell_cwd path)
                (λ e t rest h. ground (arith, h, v))
                (λ r e t rest h.
                  nano_loop-RunsAs path (open_nano u r.0 r.1) input t rest (unfold open_nano in v)
                    h))
            (λ e t rest h. ground (arith, h, v)))
        t rest

module _ (a : Drive) (uid : ℕ) where
  abbrev MachineRunsAs : Machine a → Type 0
  MachineRunsAs m = RunsAs uid m.shell

  cmd_sync-RunsAs : (m : Machine a) → MachineRunsAs m → MachineRunsAs (cmd_sync a m)
  unfolding cmd_sync
  cmd_sync-RunsAs m v = ground (arith, v)

  cmd_disk-RunsAs :
      (m : Machine a) (argv : List (List ℕ)) → MachineRunsAs m → MachineRunsAs (cmd_disk a m argv)
  unfolding cmd_disk cmd_disk_load cmd_disk_format cmd_sync
  cmd_disk-RunsAs m argv v = ground (arith, v)

  cmd_install-RunsAs : (m : Machine a) → MachineRunsAs m → MachineRunsAs (cmd_install a m)
  unfolding cmd_install save_installed
  cmd_install-RunsAs m v = ground (arith, v)

restore_uid-shell_uid :
    (a : Drive) (uid : ℕ) (o : Option (Machine a)) (n : Machine a)
    → restore_uid a uid o ≡ some n
    → n.shell.shell_uid ≡ uid
unfolding restore_uid
restore_uid-shell_uid a uid none n h = absurd (cc h)
restore_uid-shell_uid a uid (some m) n h = ground (arith, h)

run_nano-shell_uid :
    (a : Drive) (m n : Machine a) (argv : List (List ℕ))
    → run_nano a m argv ≡ some n
    → n.shell.shell_uid ≡ m.shell.shell_uid
unfolding run_nano
run_nano-shell_uid a m n argv =
    option_branch (λ o. o ≡ some n → n.shell.shell_uid ≡ m.shell.shell_uid)
      (cmd_nano m.shell argv m.input) (λ e h. absurd (cc h))
      (λ r e h.
        ground (arith, h, cmd_nano-RunsAs m.shell.shell_uid m.shell argv m.input r.0 r.1 refl e))

-- Whatever a command line does, `sudo` and `nano` included, when it is done the shell runs as the
-- user that it ran as before.
pub shell_dispatch-shell_uid :
    (a : Drive) (m n : Machine a) (argv : List (List ℕ))
    → shell_dispatch a m argv ≡ some n
    → n.shell.shell_uid ≡ m.shell.shell_uid
unfolding shell_dispatch cmd_sudo not_found
shell_dispatch-shell_uid a m n [] h = ground (arith, h)
shell_dispatch-shell_uid a m n (command ∷ args) h =
    let argv : List (List ℕ) = command ∷ args in
    let uid : ℕ = m.shell.shell_uid in
    let P : Option (Machine a) → Type 0 = λ o. o ≡ some n → n.shell.shell_uid ≡ uid in
    let done : (k : Machine a) → k.shell.shell_uid ≡ uid → P (some k) =
      λ k e q. ground (arith, e, q) in
    branch P (is_command argv "nano") (λ y. run_nano-shell_uid a m n argv)
      (λ b.
        branch P (is_command argv "sudo")
          (λ y.
            branch P (ltb (length argv) 2) (λ z. done _ refl)
              (λ z. restore_uid-shell_uid a uid (shell_dispatch a (as_root a m) args) n))
          (λ c.
            branch P (is_command argv "install")
              (λ y. done (cmd_install a m) (cmd_install-RunsAs a uid m refl))
              (λ d.
                branch P (is_command argv "disk")
                  (λ y. done (cmd_disk a m argv) (cmd_disk-RunsAs a uid m argv refl))
                  (λ e.
                    branch P (is_command argv "sync")
                      (λ y. done (cmd_sync a m) (cmd_sync-RunsAs a uid m refl))
                      (λ g.
                        option_branch P (shell_command m.shell argv)
                          (λ e. done (record m { shell = not_found a m.shell argv }) refl)
                          (λ s e.
                            done (record m { shell = s })
                              (command-RunsAs uid m.shell s argv refl e)))))))
      h
