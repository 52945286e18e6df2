-- ===== src/Shell/Run/Sound.antt =====
-- kernel/shell.c: what every command keeps.
use fur_os.Prelude.{
  ℕ, ◌≡◌, ◌≢◌, refl, true, ◌||◌, not, Option, none, some, List, arith, branch, codes,
}
use fur_os.Fs.Resolve.{fs_resolve}
use fur_os.Vga.View.{vga_clear-IsInView}
use fur_os.Vga.{vga_clear}
use fur_os.Shell.State.{Shell, say}
use fur_os.Shell.Packages.{
  arg, package_is_installed, network_manager, sync_state_with_packages, set_installed,
}
use fur_os.Shell.Network.Closed.{IsClosed, keeps_cmd_apt, keeps_cmd_networkmanager, keeps_cmd_nmcli}
use fur_os.Shell.Files.Keeps.{
  IsShell, say-IsShell, cmd_ls-IsShell, cmd_pwd-IsShell, cmd_cd-IsShell, cmd_mkdir-IsShell,
  cmd_touch-IsShell, cmd_cat-IsShell, cmd_write-IsShell, cmd_rm-IsShell, cmd_chmod-IsShell,
  cmd_chown-IsShell,
}
use fur_os.Shell.Info.{cmd_help, cmd_whoami, cmd_id, cmd_ifconfig}
use fur_os.Shell.Command.{is_command, shell_command}

same-IsShell :
    (s t : Shell)
    → IsShell s
    → t.nodes ≡ s.nodes
    → t.shell_cwd ≡ s.shell_cwd
    → t.screen ≡ s.screen
    → t.shell_uid ≡ s.shell_uid
    → IsShell t
same-IsShell s t v a b c d = record {
  files = rw a v.files;
  cwd = rw (a, b) v.cwd;
  screen = rw c v.screen;
  uid = rw d v.uid;
}

sync-IsShell : (s : Shell) → IsShell s → IsShell (sync_state_with_packages s)
unfolding sync_state_with_packages
sync-IsShell s v =
    branch IsShell (not (package_is_installed s network_manager))
      (λ y. same-IsShell s _ v refl refl refl refl) (λ n. v)

IsShell-closed : IsClosed IsShell
IsShell-closed = record {
  printed = λ texts s v. say-IsShell s v texts;
  changed = λ i value texts s v.
      sync-IsShell (set_installed i value (say texts s))
        (same-IsShell (say texts s) _ (say-IsShell s v texts) refl refl refl refl);
  indexed = λ s v. same-IsShell s _ v refl refl refl refl;
  started = λ s v. same-IsShell s _ v refl refl refl refl;
  stopped = λ s v. same-IsShell s _ v refl refl refl refl;
  radio_on = λ s v. same-IsShell s _ v refl refl refl refl;
  radio_off = λ s v. same-IsShell s _ v refl refl refl refl;
  joined = λ s name i r e v. same-IsShell s _ v refl refl refl refl;
}

ifconfig-IsShell : (s : Shell) → IsShell s → IsShell (cmd_ifconfig s)
unfolding cmd_ifconfig
ifconfig-IsShell s v =
    branch IsShell (not (package_is_installed s (codes "net-tools"))) (λ y. say-IsShell s v _)
      (λ n. say-IsShell s v _)

-- A result satisfies the invariant, if there is one.
Good : Option Shell → Type 0
Good o = (t : Shell) → o ≡ some t → IsShell t

good : (s : Shell) → IsShell s → Good (some s)
unfolding Good
good s v t e = let q : s ≡ t = ground (arith, e) in rw (← q) v

none-Good : Good none
unfolding Good
none-Good t e = absurd (cc e)

cleared-IsShell : (s : Shell) → IsShell s → IsShell (record s { screen = vga_clear s.screen })
cleared-IsShell s v = record {
  files = v.files;
  cwd = v.cwd;
  screen = vga_clear-IsInView s.screen v.screen;
  uid = v.uid;
}

command-Good :
    (s : Shell) (argv : List (List ℕ))
    → IsShell s
    → (is_command argv "rm" ≡ true → fs_resolve s.nodes s.shell_cwd (arg argv 1) ≢ some s.shell_cwd)
    → Good (shell_command s argv)
unfolding shell_command
command-Good s argv v other =
    branch Good (is_command argv "help")
      (λ y. good (cmd_help s) (unfold cmd_help in say-IsShell s v _))
      (λ n.
        branch Good (is_command argv "clear") (λ y. good _ (cleared-IsShell s v))
          (λ n.
            branch Good (is_command argv "whoami")
              (λ y. good (cmd_whoami s) (unfold cmd_whoami in say-IsShell s v _))
              (λ n.
                branch Good (is_command argv "id")
                  (λ y. good (cmd_id s) (unfold cmd_id in say-IsShell s v _))
                  (λ n.
                    branch Good (is_command argv "pwd") (λ y. good _ (cmd_pwd-IsShell s v))
                      (λ n.
                        branch Good (is_command argv "ls")
                          (λ y. good _ (cmd_ls-IsShell s v argv s.shell_uid))
                          (λ n.
                            branch Good (is_command argv "cd")
                              (λ y. good _ (cmd_cd-IsShell s v argv s.shell_uid))
                              (λ n.
                                branch Good (is_command argv "mkdir")
                                  (λ y. good _ (cmd_mkdir-IsShell s v argv s.shell_uid v.uid))
                                  (λ n.
                                    branch Good (is_command argv "touch")
                                      (λ y. good _ (cmd_touch-IsShell s v argv s.shell_uid v.uid))
                                      (λ n.
                                        branch Good (is_command argv "cat")
                                          (λ y. good _ (cmd_cat-IsShell s v argv s.shell_uid))
                                          (λ n.
                                            branch Good (is_command argv "write")
                                              (λ y. good _ (cmd_write-IsShell s v argv))
                                              (λ n.
                                                branch Good (is_command argv "rm")
                                                  (λ y. good _ (cmd_rm-IsShell s v argv (other y)))
                                                  (λ n.
                                                    branch Good (is_command argv "chmod")
                                                      (λ y.
                                                        good _
                                                          (cmd_chmod-IsShell s v argv s.shell_uid))
                                                      (λ n.
                                                        branch Good (is_command argv "chown")
                                                          (λ y. good _ (
                                                            cmd_chown-IsShell s v argv s.shell_uid))
                                                          (λ n.
                                                            branch Good
                                                            (is_command argv "logout"
                                                            || is_command argv "exit")
                                                            (λ y. good _ (
                                                            same-IsShell s _ v refl refl refl refl))
                                                            (λ n.
                                                            branch Good (is_command argv "apt")
                                                            (λ y. good _ (
                                                            keeps_cmd_apt IsShell IsShell-closed s
                                                            argv v))
                                                            (λ n.
                                                            branch Good
                                                            (is_command argv "networkmanager")
                                                            (λ y. good _ (
                                                            keeps_cmd_networkmanager IsShell
                                                            IsShell-closed s argv v))
                                                            (λ n.
                                                            branch Good (is_command argv "nmcli")
                                                            (λ y. good _ (
                                                            keeps_cmd_nmcli IsShell IsShell-closed s
                                                            argv v))
                                                            (λ n.
                                                            branch Good (is_command argv "ifconfig")
                                                            (λ y. good _ (ifconfig-IsShell s v))
                                                            (λ n. none-Good)))))))))))))))))))

-- Every command of `shell_command`, but an `rm` of the working directory, keeps the file system
-- well-formed, the working directory a directory of it, the cursor in the viewport, and the user id
-- in 16 bits.
pub shell_command-IsShell :
    (s t : Shell) (argv : List (List ℕ))
    → IsShell s
    → (is_command argv "rm" ≡ true → fs_resolve s.nodes s.shell_cwd (arg argv 1) ≢ some s.shell_cwd)
    → shell_command s argv ≡ some t
    → IsShell t
unfolding Good
shell_command-IsShell s t argv v other e = command-Good s argv v other t e
