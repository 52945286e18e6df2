-- ===== src/Installer/Stages.antt =====
-- kernel/installer.c: the first two stages of the wizard, and its summary.
use fur_os.Prelude.{
  ℕ, zero, suc, ◌+◌, Bool, true, false, ◌&&◌, ◌||◌, not, Option, none, some, List, [], ◌∷◌, ◌++◌,
  codes, length, take, ltb, ◌==◌, if◌then◌else◌,
}
use fur_os.KString.{kstrlen, str_eq}
use fur_os.Fs.Node.{ok, fail}
use fur_os.Disk.Drive.{Drive, DeviceInfo}
use fur_os.Disk.Store.{disk_count, disk_get_info, disk_select}
use fur_os.Installer.Draw.{
  cc_fg, cc_bg, cb_fg, cw_fg, cg_fg, cx_fg, u32_to_str, hex16_to_str, text_at, bytes_at, fill_at,
  draw_header, clear_content, draw_bottom,
}
use fur_os.Installer.Widgets.{is_enter, is_quit}
use fur_os.Installer.Wizard.{
  Wiz, Turn, next, back, cancel, Setup, Stage, on_screen, any_key, ask, pick,
}

-- The loop at the end of `stage_welcome`, with the keys that are left.
unfoldable pub welcome_key : Bool → List ℕ → Option (Turn × List ℕ)
welcome_key disks [] = none
welcome_key disks (key ∷ rest) = elim (is_enter key && disks) [
  | true ↦ some (next, rest)
  | false ↦ elim (is_quit key) [ true ↦ some (cancel, rest) | false ↦ welcome_key disks rest ]
]

abbrev model_of : DeviceInfo → List ℕ
model_of di = take (kstrlen di.model) di.model

-- The line of a disk in the menu.
unfoldable pub disk_line : ℕ → Option DeviceInfo → List ℕ
disk_line i none = codes "?"
disk_line i (some di) =
    let bus =
      if di.interface_type == 1
      then codes "AHCI  "
      else codes (if di.slave == 0 then "IDE Master io=" else "IDE Slave  io=")
        ++ (hex16_to_str di.io_base ++ codes "  ") in
    if di.present
    then take 62 (
        91 ∷ u32_to_str i 12
        ++ (codes "]  "
            ++ (bus ++ (u32_to_str di.sectors28 12 ++ (codes " sectors  " ++ model_of di)))))
    else codes "?"

-- The line of the chosen disk in the summary.
unfoldable pub summary_line : ℕ → DeviceInfo → List ℕ
summary_line i di =
    let size = u32_to_str di.sectors28 12 ++ codes " sectors" in
    let model = if length (model_of di) == 0 then [] else 32 ∷ model_of di in
    take 46 (91 ∷ u32_to_str i 12 ++ (codes "] " ++ (size ++ model)))

module _ (a : Drive) where
  unfoldable pub show_welcome : Setup a → Setup a
  show_welcome m =
      let n = disk_count a m.disk in
      let none_found = n == 0 in
      on_screen a
        (draw_header 1 7 "Welcome"
          ∷ clear_content
          ∷ text_at 22 4 "  ______           ____  ____" cx_fg
          ∷ text_at 22 5 " |  ____|         / __ \\/ ___|" cx_fg
          ∷ text_at 22 6 " | |__ _   _ _ __| |  | \\___ \\" cx_fg
          ∷ text_at 22 7 " |  __| | | | '__| |  | |___) |" cx_fg
          ∷ text_at 22 8 " | |  | |_| | |  | |__| |____/" cx_fg
          ∷ text_at 22 9 " |_|   \\__,_|_|   \\____/" cx_fg
          ∷ text_at 2 11 "Welcome to the FurOS 1.0 Installation Wizard" cc_fg
          ∷ text_at 2 12 "Based on Debian GNU/Linux 12 (Bookworm)" cb_fg
          ∷ text_at 2 14 "This wizard will install FurOS to a disk and set up your system." cb_fg
          ∷ text_at 2 15 "All data on the chosen disk will be permanently erased." cw_fg
          ∷ text_at 2 17 "Disk interface support: IDE (legacy) and AHCI SATA" cb_fg
          ∷ text_at 2 18 "Disks detected: " cc_fg
          ∷ bytes_at 18 18 (u32_to_str n 8) (if none_found then cw_fg else cg_fg) cc_bg
          ∷ text_at 2 19
              (if none_found then "No disks found! Cannot install. Check disk connection." else "")
              cw_fg
          ∷ draw_bottom (
              codes (
                if none_found
                then "  No disks detected. Q/ESC: Quit"
                else "  ENTER: Start Wizard    Q/ESC: Quit Installer"))
          ∷ [])
        m

  unfoldable pub stage_welcome : Stage a
  stage_welcome w m = elim (welcome_key (not (disk_count a m.disk == 0)) m.keys) [
    | none ↦ none
    | some r ↦ some (r.0, w, record (show_welcome m) { keys = r.1 })
  ]

  -- The lines of `count` disks, from number `i` on.
  unfoldable pub disk_lines : ℕ → ℕ → Setup a → List (List ℕ)
  unfolding disk_line
  disk_lines zero i m = []
  disk_lines (suc count) i m = disk_line i (disk_get_info a m.disk i) ∷ disk_lines count (suc i) m

  -- `stage_disk` after the menu.
  unfoldable pub choose_disk : ℕ → ℕ → Stage a
  choose_disk count sel w m =
      let r = disk_select a m.disk sel in
      let n = record m { disk = r.1 } in
      elim (r.0) [
        | ok ↦ some (next, record w { disk_index = some sel }, n)
        | fail ↦
            any_key a back w (
              on_screen a (text_at 2 (8 + count) "Cannot select disk! Press any key." cw_fg ∷ []) n)
      ]

  unfoldable pub show_disks : Setup a → Setup a
  show_disks = on_screen a (
      draw_header 2 7 "Select Disk"
      ∷ clear_content
      ∷ text_at 2 2 "Select the disk to install FurOS on:" cc_fg
      ∷ bytes_at 2 3 (0xFE ∷ codes " WARNING: All data on the chosen disk will be erased!") cw_fg
          cc_bg
      ∷ draw_bottom (codes "  " ++ 0x18 ∷ 0x19 ∷ codes ": Move   ENTER: Select   ESC/Q: Back")
      ∷ [])

  abbrev pub initial : ℕ → Option ℕ → ℕ
  initial count none = 0
  initial count (some i) = if ltb i count then i else 0

  unfoldable pub stage_disk : Stage a
  unfolding disk_lines
  stage_disk w m =
      let count = disk_count a m.disk in
      if count == 0 || ltb 16 count
      then some (cancel, w, m)
      else pick a 5 (disk_lines count 0 m) (initial count w.disk_index) w (show_disks m)
          (λ sel n. choose_disk count sel w n)

  abbrev set_or_empty : ℕ → List ℕ → Setup a → Setup a
  set_or_empty y pw =
      let empty = length pw == 0 in
      on_screen a
        (text_at 20 y (if empty then "[empty]" else "[set]") (if empty then cw_fg else cg_fg) ∷ [])

  abbrev chosen_line : Wiz → Setup a → List ℕ
  chosen_line w m = elim (w.disk_index) [
    | none ↦ []
    | some i ↦ elim (disk_get_info a m.disk i) [
      | none ↦ []
      | some di ↦ if di.present then summary_line i di else []
    ]
  ]

  unfoldable pub draw_summary : Wiz → Setup a → Setup a
  draw_summary w m =
      let first =
        on_screen a
          (draw_header 7 7 "Summary"
            ∷ clear_content
            ∷ text_at 2 2 "Installation Summary" cc_fg
            ∷ fill_at 2 3 40 1 0xC4 cb_fg cc_bg
            ∷ text_at 4 5 "Target disk :" cb_fg
            ∷ bytes_at 20 5 (chosen_line w m) cg_fg cc_bg
            ∷ text_at 4 6 "Hostname    :" cb_fg
            ∷ bytes_at 20 6 w.hostname cg_fg cc_bg
            ∷ text_at 4 7 "Timezone    :" cb_fg
            ∷ bytes_at 20 7 w.timezone cg_fg cc_bg
            ∷ text_at 4 8 "Root pass   :" cb_fg
            ∷ [])
          m in
      let second =
        on_screen a
          (text_at 4 9 "Username    :" cb_fg
            ∷ bytes_at 20 9 w.username cg_fg cc_bg
            ∷ text_at 4 10 "User pass   :" cb_fg
            ∷ [])
          (set_or_empty 8 w.root_pw first) in
      on_screen a
        (fill_at 2 12 40 1 0xC4 cb_fg cc_bg
          ∷ bytes_at 2 13 (0xFE ∷ codes " Type YES and press ENTER to begin installation:") cw_fg
              cc_bg
          ∷ draw_bottom (codes "  Type YES to confirm   ESC/Q: Go back")
          ∷ [])
        (set_or_empty 10 w.user_pw second)

  unfoldable pub after_confirm : Wiz → Bool → List ℕ → Setup a → Option (Turn × Wiz × Setup a)
  after_confirm w entered confirm m =
      if not entered
      then some (back, w, m)
      else if str_eq confirm (codes "YES") || str_eq confirm (codes "yes")
      then some (next, w, m)
      else some (back, w, m)

  unfoldable pub stage_summary : Stage a
  stage_summary w m = ask a 15 12 false 8 [] (draw_summary w m) (after_confirm w)
