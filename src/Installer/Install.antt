-- ===== src/Installer/Install.antt =====
-- kernel/installer.c: the installation.
use fur_os.Prelude.{ℕ, ◌+◌, none, some, List, [], ◌∷◌, ◌++◌, codes, get_or}
use fur_os.Fs.Node.{Nodes, Status, ok, fail, fs_get_root}
use fur_os.Fs.Resolve.{fs_resolve}
use fur_os.Fs.Create.{fs_mkdir_as}
use fur_os.Disk.Drive.{Drive}
use fur_os.Disk.Store.{disk_format_fs, disk_save_fs}
use fur_os.Disk.Install.{disk_install_system}
use fur_os.Shell.Seed.{make_directories, put_file}
use fur_os.Installer.{passwd_line, group_line}
use fur_os.Installer.Draw.{
  cc_fg, cb_fg, cw_fg, cg_fg, cx_fg, text_at, draw_header, clear_content, draw_bottom,
  draw_progress, mark_step,
}
use fur_os.Installer.Wizard.{Wiz, next, halt, Setup, Stage, on_screen, any_key}

abbrev step_label : ℕ → List ℕ
step_label i =
    get_or
      (codes "Writing bootloader and kernel to disk..."
        ∷ codes "Formatting filesystem area..."
        ∷ codes "Creating directory structure..."
        ∷ codes "Writing configuration files..."
        ∷ codes "Saving filesystem to disk..."
        ∷ [])
      i []

os_release : List ℕ
os_release =
    codes "PRETTY_NAME=\"FurOS 1.0 (Bookworm)\"\nNAME=\"FurOS\"\nVERSION_ID=\"1.0\"\n"
    ++ (codes "VERSION=\"1.0 (Bookworm)\"\nVERSION_CODENAME=bookworm\nID=furos\nID_LIKE=debian\n"
        ++ codes "HOME_URL=\"https://furos.org/\"\n")

motd : List ℕ
motd =
    codes "\n  ______           ____  ____\n |  ____|         / __ \\/ ___|\n"
    ++ (codes " | |__ _   _ _ __| |  | \\___ \\\n |  __| | | | '__| |  | |___) |\n"
        ++ (codes " | |  | |_| | |  | |__| |____/\n |_|   \\__,_|_|   \\____/\n\n"
            ++ (codes " FurOS 1.0  "
                ++ 0xB3 ∷ codes "  Debian GNU/Linux 12 Bookworm\n"
                ++ codes
                    " Type 'help' for available commands.\n Type 'logout' to return to the desktop.\n\n")))

bashrc : List ℕ
bashrc = codes "# FurOS ~/.bashrc\nalias ls='ls'\nalias ll='ls'\n"

-- The directories.
unfoldable pub make_install_directories : Nodes → Nodes
make_install_directories t =
    let a = make_directories (codes "bin" ∷ codes "etc" ∷ codes "home" ∷ codes "var" ∷ []) t in
    let b = (fs_mkdir_as a fs_get_root (codes "tmp") 0 0o1777).1 in
    make_directories (codes "usr" ∷ codes "run" ∷ []) b

-- The directories, and that of the user.
unfoldable pub install_directories : List ℕ → Nodes → Nodes
install_directories username t =
    let made = make_install_directories t in
    elim (fs_resolve made fs_get_root (codes "home")) [
      | none ↦ made
      | some home_node ↦ (fs_mkdir_as made home_node username 1000 0o755).1
    ]

-- `.bashrc` in the directory of the user.
unfoldable pub install_bashrc : List ℕ → Nodes → Nodes
unfolding bashrc
install_bashrc username t = elim (fs_resolve t fs_get_root (codes "home")) [
  | none ↦ t
  | some home_node ↦ elim (fs_resolve t home_node username) [
    | none ↦ t
    | some hn ↦ put_file hn ".bashrc" bashrc t
  ]
]

-- The configuration files.
unfoldable pub install_config : Wiz → Nodes → Nodes
unfolding os_release motd
install_config w t = install_bashrc w.username (
    put_file fs_get_root "etc/motd" motd (
      put_file fs_get_root "etc/group" (group_line w.username) (
        put_file fs_get_root "etc/passwd" (passwd_line w.username) (
          put_file fs_get_root "etc/os-release" os_release (
            put_file fs_get_root "etc/timezone" (w.timezone ++ 10 ∷ [])
              (put_file fs_get_root "etc/hostname" (w.hostname ++ 10 ∷ []) t))))))

unfoldable pub install_tree : Wiz → Nodes → Nodes
install_tree w t = install_config w (install_directories w.username t)

module _ (a : Drive) (bootsect kernel : List ℕ) (entry_offset : ℕ) where
  -- The first two lines of `DO_STEP`.
  abbrev begin_step : ℕ → ℕ → Setup a → Setup a
  begin_step idx pct =
      on_screen a (mark_step (4 + idx) (step_label idx) cx_fg ∷ draw_progress 10 pct ∷ [])

  abbrev end_step : ℕ → Setup a → Setup a
  end_step idx = on_screen a (mark_step (4 + idx) (step_label idx) cg_fg ∷ [])

  -- What `DO_STEP` does after a failure.
  unfoldable pub step_failed : ℕ → Stage a
  step_failed idx w m = any_key a halt w (
      on_screen a
        (mark_step (4 + idx) (step_label idx) cw_fg
          ∷ text_at 2 12 "Installation failed!" cw_fg
          ∷ text_at 2 13 m.disk.g_last_error cw_fg
          ∷ draw_bottom (codes "  Press any key to halt.")
          ∷ [])
        m)

  unfoldable pub draw_install : Setup a → Setup a
  draw_install m =
      on_screen a
        (draw_header 7 7 "Installing"
          ∷ clear_content
          ∷ text_at 2 2 "Installing FurOS 1.0..." cc_fg
          ∷ draw_bottom (codes "  Please wait " ++ 0xE2 ∷ 0x80 ∷ 0x94 ∷ codes " do not power off.")
          ∷ mark_step 4 (step_label 0) cb_fg
          ∷ mark_step 5 (step_label 1) cb_fg
          ∷ mark_step 6 (step_label 2) cb_fg
          ∷ mark_step 7 (step_label 3) cb_fg
          ∷ mark_step 8 (step_label 4) cb_fg
          ∷ draw_progress 10 0
          ∷ [])
        m

  -- `stage_install` after the last step, whose result comes first.
  unfoldable pub after_save : Status → Stage a
  after_save fail w m = step_failed 4 w m
  after_save ok w m = some (next, w, on_screen a (draw_progress 10 100 ∷ []) (end_step 4 m))

  unfoldable pub show_filling : Setup a → Setup a
  show_filling m =
      begin_step 4 85 (end_step 3 (begin_step 3 65 (end_step 2 (begin_step 2 40 (end_step 1 m)))))

  -- `stage_install` after the format.
  unfoldable pub after_format : Status → Stage a
  after_format fail w m = step_failed 1 w m
  after_format ok w m =
      let shown = show_filling m in
      let tree = install_tree w m.nodes in
      let saved = disk_save_fs a m.disk tree in
      after_save (saved.0) w (record shown { nodes = tree; disk = saved.1 })

  -- `stage_install` after its first step.
  unfoldable pub after_system : Status → Stage a
  after_system fail w m = step_failed 0 w m
  after_system ok w m =
      let shown = begin_step 1 20 (end_step 0 m) in
      let format = disk_format_fs a m.disk in
      after_format (format.0) w (record shown { disk = format.1; nodes = format.2 })

  unfoldable pub stage_install : Stage a
  stage_install w m =
      let shown = begin_step 0 0 (draw_install m) in
      let system = disk_install_system a m.disk bootsect kernel entry_offset in
      after_system (system.0) w (record shown { disk = system.1 })
