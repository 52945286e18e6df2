-- ===== src/Shell/Machine.antt =====
-- kernel/shell.c: the commands on the disk, and what the shell runs on.
use fur_os.Prelude.{ℕ, not, List, [], ◌∷◌, codes, length, String, ltb, if◌then◌else◌}
use fur_os.KString.{str_eq}
use fur_os.Fs.Node.{ok, fail, fs_get_root}
use fur_os.Disk.Drive.{Drive}
use fur_os.Disk.Store.{Disk, disk_available, disk_load_fs, disk_save_fs, disk_format_fs}
use fur_os.Shell.State.{Shell, say, line_end, shell_println}
use fur_os.Shell.Packages.{arg}
use fur_os.Shell.Seed.{install_files}

module _ (a : Drive) where
  -- The machine that the shell runs on; `input` is what `keyboard_getchar` will return.
  pub record Machine : Type 0 where
    pub shell : Shell
    pub disk : Disk a
    pub input : List ℕ

  abbrev pub on_shell : (Shell → Shell) → Machine → Machine
  on_shell f m = record m { shell = f m.shell }

  -- `shell_println(disk_last_error())` after a message.
  abbrev failed_with : String → Machine → Machine
  failed_with text m =
      on_shell (λ s. say (codes text ∷ codes m.disk.g_last_error ∷ line_end ∷ []) s) m

  unfoldable pub cmd_sync : Machine → Machine
  cmd_sync m =
      let r = disk_save_fs a m.disk m.shell.nodes in
      let n = record m { disk = r.1 } in
      elim (r.0) [
        | fail ↦ failed_with "sync: failed\n" n
        | ok ↦ on_shell (shell_println "sync: saved to disk") n
      ]

  -- The end of `cmd_install`, from the save on.
  unfoldable pub save_installed : Machine → Machine
  save_installed m =
      let r = disk_save_fs a m.disk m.shell.nodes in
      let n = record m { disk = r.1 } in
      elim (r.0) [
        | fail ↦ failed_with "install: write failed\n" n
        | ok ↦
            on_shell
              (λ s.
                shell_println "Install complete. Reboot to start FurOS from disk."
                  (record s { shell_cwd = fs_get_root }))
              n
      ]

  unfoldable pub cmd_install : Machine → Machine
  unfolding save_installed
  cmd_install m =
      let started = on_shell (shell_println "FurOS 1.0 installer (terminal mode)") m in
      if not (disk_available a m.disk)
      then on_shell
          (say (
            codes "install: no supported ATA disk detected\n"
            ∷ codes "  Use QEMU with -hda <disk.img> to attach an IDE disk.\n"
            ∷ []))
          started
      else (let f = disk_format_fs a m.disk in
          let said = on_shell (shell_println "Formatting disk filesystem...") started in
          let n = record said { shell = record (said.shell) { nodes = f.2 }; disk = f.1 } in
          elim (f.0) [
            | fail ↦ failed_with "install: disk format failed\n" n
            | ok ↦ save_installed (
                on_shell
                  (λ s.
                    say
                      (codes "Creating directory hierarchy...\n"
                        ∷ codes "Writing configuration files...\n"
                        ∷ [])
                      (record s { nodes = install_files s.nodes }))
                  n)
          ])

  unfoldable pub cmd_disk_load : Machine → Machine
  cmd_disk_load m =
      let r = disk_load_fs a m.disk m.shell.nodes in
      let n = record m { shell = record (m.shell) { nodes = r.2 }; disk = r.1 } in
      elim (r.0) [
        | fail ↦ failed_with "disk load: failed\n" n
        | ok ↦
            on_shell (λ s. shell_println "disk load: ok" (record s { shell_cwd = fs_get_root })) n
      ]

  unfoldable pub cmd_disk_format : Machine → Machine
  cmd_disk_format m =
      let r = disk_format_fs a m.disk in
      let n = record m { shell = record (m.shell) { nodes = r.2 }; disk = r.1 } in
      elim (r.0) [
        | fail ↦ failed_with "disk format: failed\n" n
        | ok ↦
            on_shell (λ s. shell_println "disk format: ok" (record s { shell_cwd = fs_get_root })) n
      ]

  unfoldable pub cmd_disk : Machine → List (List ℕ) → Machine
  unfolding cmd_disk_load cmd_disk_format cmd_sync
  cmd_disk m argv =
      if ltb (length argv) 2
      then on_shell (shell_println "disk: usage disk info|load|save|format") m
      else if str_eq (arg argv 1) (codes "info")
      then on_shell
          (say (
            (if disk_available a m.disk
              then codes "disk: available\n"
              else codes "disk: unavailable\n")
            ∷ codes "status: "
            ∷ codes m.disk.g_last_error
            ∷ line_end
            ∷ []))
          m
      else if str_eq (arg argv 1) (codes "load")
      then cmd_disk_load m
      else if str_eq (arg argv 1) (codes "save")
      then cmd_sync m
      else if str_eq (arg argv 1) (codes "format")
      then cmd_disk_format m
      else on_shell (shell_println "disk: unknown subcommand") m
