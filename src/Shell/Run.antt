-- ===== src/Shell/Run.antt =====
-- kernel/shell.c: the dispatch of a command line, and the main loop.
pub mod Sound
pub mod Ends
pub mod User
use fur_os.Prelude.{
  ℕ, zero, suc, Bool, true, false, ◌&&◌, ◌||◌, not, Option, none, some, List, [], ◌∷◌, ◌++◌, codes,
  length, String, ltb, ◌==◌, if◌then◌else◌,
}
use fur_os.KString.{str_eq}
use fur_os.Fs.Node.{Nodes, Status, ok, fail, fs_get_root, fs_init, zeros}
use fur_os.Fs.Files.{fs_read_file}
use fur_os.Fs.MakePath.{fs_make_path}
use fur_os.Disk.Drive.{Drive}
use fur_os.Disk.Store.{Disk, disk_available, disk_init, disk_load_fs, disk_save_fs, disk_format_fs}
use fur_os.Vga.{Screen, vga_clear, vga_set_color, vga_write_string}
use fur_os.Shell.State.{Shell, say, line_end, shell_println}
use fur_os.Shell.Numbers.{shell_uid_root, shell_uid_debian, uid_to_name}
use fur_os.Shell.Line.{shell_read_line, shell_parse}
use fur_os.Shell.Packages.{arg, cmd_apt}
use fur_os.Shell.Network.{cmd_networkmanager, cmd_nmcli}
use fur_os.Shell.Files.{
  cmd_ls, cmd_pwd, cmd_cd, cmd_mkdir, cmd_touch, cmd_cat, cmd_write, cmd_rm, cmd_chmod, cmd_chown,
}
use fur_os.Shell.Info.{cmd_help, cmd_whoami, cmd_id, cmd_ifconfig}
use fur_os.Shell.Seed.{shell_seed_filesystem, install_files}
use fur_os.Shell.Nano.{cmd_nano}
use fur_os.Shell.Command.{is_command, shell_command}
use fur_os.Shell.Machine.{Machine, on_shell, cmd_sync, cmd_install, cmd_disk}

-- The bytes of the dash in the messages of `shell_run`.
abbrev em_dash : List ℕ
em_dash = 0xE2 ∷ 0x80 ∷ 0x94 ∷ []

unfoldable pub shell_prompt : Shell → Shell
unfolding uid_to_name
shell_prompt s =
    let path : List ℕ = elim (fs_make_path s.nodes s.shell_cwd (zeros 128) 128) [
      | none ↦ codes "/"
      | some path ↦ path
    ] in
    say
      (uid_to_name s.shell_uid
        ∷ codes "@furos:"
        ∷ path
        ∷ (if s.shell_uid == shell_uid_root then codes " # " else codes " $ ")
        ∷ [])
      s

module _ (a : Drive) where
  unfoldable pub run_nano : Machine a → List (List ℕ) → Option (Machine a)
  run_nano m argv = elim (cmd_nano m.shell argv m.input) [
    | none ↦ none
    | some (s, rest) ↦ some (record m { shell = s; input = rest })
  ]

  -- `shell_uid = saved_uid` in `cmd_sudo`, once the command is done.
  unfoldable pub restore_uid : ℕ → Option (Machine a) → Option (Machine a)
  restore_uid saved_uid none = none
  restore_uid saved_uid (some m) =
      some (record m { shell = record (m.shell) { shell_uid = saved_uid } })

  abbrev pub as_root : Machine a → Machine a
  as_root m = record m { shell = record (m.shell) { shell_uid = shell_uid_root } }

  -- `cmd_sudo`, given what the dispatch of the rest of the arguments as root leaves.
  unfoldable pub cmd_sudo : Machine a → List (List ℕ) → Option (Machine a) → Option (Machine a)
  unfolding restore_uid
  cmd_sudo m argv done =
      if ltb (length argv) 2
      then some (on_shell a (shell_println "sudo: usage sudo <command> [args]") m)
      else restore_uid m.shell.shell_uid done

  unfoldable pub not_found : Shell → List (List ℕ) → Shell
  not_found s argv =
      say
        (arg argv 0
          ∷ codes ": command not found (type 'help' for available commands)"
          ∷ line_end
          ∷ [])
        s

  -- `none` while `nano` waits for input.
  unfoldable pub shell_dispatch : Machine a → List (List ℕ) → Option (Machine a)
  unfolding run_nano cmd_sudo cmd_install cmd_disk cmd_sync shell_command not_found
  shell_dispatch m [] = some m
  shell_dispatch m (command ∷ args) =
      let argv = command ∷ args in
      let inner = shell_dispatch (as_root m) args in
      if is_command argv "nano"
      then run_nano m argv
      else if is_command argv "sudo"
      then cmd_sudo m argv inner
      else if is_command argv "install"
      then some (cmd_install a m)
      else if is_command argv "disk"
      then some (cmd_disk a m argv)
      else if is_command argv "sync"
      then some (cmd_sync a m)
      else elim (shell_command m.shell argv) [
        | some s ↦ some (record m { shell = s })
        | none ↦ some (record m { shell = not_found m.shell argv })
      ]

  -- How the main loop stands when the input has been read: it has left, it waits for more, or the
  -- rounds that it was given did not suffice; `hanging` where it has not begun, since the scan for
  -- disks does not return.
  pub data Session : Type 0 where
    exited : Machine a → Session
    waiting : Session
    out_of_rounds : Session
    hanging : Session

  -- The prompt in its color.
  unfoldable pub prompt_screen : Shell → Screen
  unfolding shell_prompt
  prompt_screen s =
      let color = if s.shell_uid == shell_uid_root then 12 else 10 in
      vga_set_color (shell_prompt (record s { screen = vga_set_color s.screen color 0 })).screen 7 0

  -- `while (!g_shell_exit)`, for at most so many rounds.
  unfoldable pub shell_loop : ℕ → Machine a → Session
  unfolding prompt_screen shell_read_line shell_parse shell_dispatch
  shell_loop zero m = out_of_rounds
  shell_loop (suc rounds) m = elim m.shell.g_shell_exit [
    | true ↦ exited m
    | false ↦ elim (shell_read_line 256 (prompt_screen m.shell) m.input) [
      | none ↦ waiting
      | some (line, screen, rest) ↦
          elim (shell_dispatch
            (record m { shell = record (m.shell) { screen = screen }; input = rest })
            (shell_parse line 16)) [ none ↦ waiting | some n ↦ shell_loop rounds n ]
    ]
  ]

  -- `/etc/motd`, shown in its color.
  unfoldable pub show_motd : Shell → Shell
  show_motd s = elim (fs_read_file s.nodes fs_get_root (codes "etc/motd")) [
    | none ↦ s
    | some (contents, size) ↦
        if ltb 0 size
        then record s {
          screen = vga_set_color (vga_write_string (vga_set_color s.screen 11 0) contents) 7 0;
        }
        else s
  ]

  -- The message for a system that has not been loaded from the disk.
  abbrev pub live_message : Bool → List ℕ
  live_message available =
      codes (if available then "[  OK  ] No installed filesystem " else "[  OK  ] No disk found ")
      ++ (em_dash ++ codes " running in live mode\n")

  -- `shell_run` from behind the scan for disks up to its loop.
  unfoldable pub boot_scanned : Machine a → Disk a → Machine a
  unfolding shell_seed_filesystem show_motd
  boot_scanned m d =
      let l = if disk_available a d then disk_load_fs a d fs_init else (fail, d, fs_init) in
      let loaded : Machine a = elim (l.0) [
        | ok ↦ record m { shell = record (m.shell) { nodes = l.2 }; disk = l.1 }
        | fail ↦ record m {
          shell =
              say (live_message (disk_available a l.1) ∷ [])
                (record (m.shell) { nodes = shell_seed_filesystem l.2 });
          disk = l.1;
        }
      ] in
      on_shell a
        (λ s. show_motd (record s {
          shell_cwd = fs_get_root;
          shell_uid = shell_uid_debian;
          g_shell_exit = false;
        }))
        loaded

  -- `shell_run` up to its loop; `keyboard_init` has no part in `input`.
  unfoldable pub boot_shell : Machine a → Option (Machine a)
  unfolding boot_scanned
  boot_shell m = elim (disk_init a m.disk) [ none ↦ none | some d ↦ some (boot_scanned m d) ]

  -- The save after the loop.
  unfoldable pub leave_shell : Machine a → Machine a
  leave_shell m =
      if disk_available a m.disk
      then record m { disk = (disk_save_fs a m.disk m.shell.nodes).1 }
      else m

  unfoldable pub end_session : Session → Session
  unfolding leave_shell
  end_session (exited m) = exited (leave_shell m)
  end_session waiting = waiting
  end_session out_of_rounds = out_of_rounds
  end_session hanging = hanging

  unfoldable pub shell_run : ℕ → Machine a → Session
  unfolding boot_shell shell_loop end_session
  shell_run rounds m = elim (boot_shell m) [
    | none ↦ hanging
    | some n ↦ end_session (shell_loop rounds n)
  ]
