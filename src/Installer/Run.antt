-- ===== src/Installer/Run.antt =====
-- kernel/installer.c: the wizard from its start to the halt of the machine.
pub mod Keys
pub mod Consumes
pub mod Ends
pub mod Cancelled
use fur_os.Prelude.{
  ℕ, zero, suc, ◌+◌, ◌-◌, Bool, true, false, Option, none, some, List, [], ◌∷◌, ◌++◌, codes, String,
  ltb, leb, ◌==◌, if◌then◌else◌,
}
use fur_os.Fs.Node.{Nodes, fs_init}
use fur_os.Vga.{Screen, vga_set_color, vga_clear, vga_write_string, vga_reset_viewport}
use fur_os.Ata.Sectors.{AtaDebugState}
use fur_os.Disk.Drive.{Drive}
use fur_os.Disk.Store.{Disk, disk_init, disk_count}
use fur_os.Installer.Draw.{
  cc_fg, cc_bg, cb_fg, cw_fg, cg_fg, cx_fg, u32_to_str, hex32_to_str, text_at, bytes_at, fill_at,
  draw_header, clear_content, draw_bottom,
}
use fur_os.Installer.Wizard.{
  Wiz, Turn, next, back, cancel, retry, halt, Setup, on_screen, any_key, stage_hostname,
  stage_timezone, stage_root_pw, stage_user,
}
use fur_os.Installer.Stages.{stage_welcome, stage_disk, stage_summary}
use fur_os.Installer.Install.{stage_install}

-- How the machine comes to its halt; `unfinished` where the rounds are used up before, `hanging`
-- where the scan for disks does not return.
pub data Ending : Type 0 where
  complete : Ending
  cancelled : Ending
  failed : Ending
  no_disk : Ending
  unfinished : Ending
  hanging : Ending

unfoldable pub wizard_start : Wiz
wizard_start = record {
  disk_index = none;
  hostname = codes "furos";
  timezone = codes "UTC";
  root_pw = [];
  username = codes "debian";
  user_pw = [];
}

abbrev blank_screen : List (Screen → Screen)
blank_screen = vga_reset_viewport ∷ (λ s. vga_set_color s 7 0) ∷ vga_clear ∷ []

-- `keyboard_getchar`: the first key below 128, with what is left; `none` where it waits.
unfoldable pub next_char : List ℕ → Option (List ℕ)
next_char [] = none
next_char (key ∷ rest) = elim (ltb key 128) [ true ↦ some rest | false ↦ next_char rest ]

module _ (a : Drive) (bootsect kernel : List ℕ) (entry_offset : ℕ) where
  -- The machine at its halt; `none` where it waits for a key.
  abbrev pub Halted : Type 0
  Halted = Option (Ending × Wiz × Setup a)

  -- A halt after a call for a key.
  unfoldable pub halt_with : Ending → Wiz → Setup a → List ℕ → Halted
  halt_with e w m [] = none
  halt_with e w m (_ ∷ rest) = some (e, w, record m { keys = rest })

  abbrev halt_after : Ending → Wiz → Setup a → Halted
  halt_after e w m = halt_with e w m m.keys

  -- `stage_complete`, and the halt behind it.
  unfoldable pub stage_complete : Wiz → Setup a → Halted
  stage_complete w m = halt_after complete w (
      on_screen a
        (draw_header 7 7 "Complete"
          ∷ clear_content
          ∷ fill_at 2 2 76 1 0xDB cg_fg cc_bg
          ∷ text_at 4 2 "  Installation Complete!  " cg_fg
          ∷ fill_at 2 3 76 1 0xDB cg_fg cc_bg
          ∷ text_at 2 5 "FurOS 1.0 has been installed successfully." cg_fg
          ∷ text_at 2 7 "To start using FurOS:" cc_fg
          ∷ text_at 4 8 "1. Power off this computer" cb_fg
          ∷ text_at 4 9 "2. Remove the installer ISO or USB drive" cb_fg
          ∷ bytes_at 4 10
              (codes "3. Power on " ++ 0xE2 ∷ 0x80 ∷ 0x94 ∷ codes " FurOS will boot from disk")
              cb_fg cc_bg
          ∷ text_at 2 12 "Installed as:" cc_fg
          ∷ text_at 4 13 "Hostname : " cb_fg
          ∷ bytes_at 15 13 w.hostname cg_fg cc_bg
          ∷ text_at 4 14 "Username : " cb_fg
          ∷ bytes_at 15 14 w.username cg_fg cc_bg
          ∷ text_at 4 15 "Timezone : " cb_fg
          ∷ bytes_at 15 15 w.timezone cg_fg cc_bg
          ∷ draw_bottom (codes "  ENTER: Halt system")
          ∷ [])
        m)

  -- `dbg` is what `ata_debug_state` fills.
  unfoldable pub show_no_disk : AtaDebugState → Wiz → Setup a → Halted
  show_no_disk dbg w m = halt_after no_disk w (
      on_screen a
        (draw_header 0 0 "Error"
          ∷ clear_content
          ∷ text_at 2 2 "No supported disk found!" cw_fg
          ∷ text_at 2 3 m.disk.g_last_error cb_fg
          ∷ text_at 2 5 "PCI host bridge :" cb_fg
          ∷ bytes_at 21 5 (hex32_to_str dbg.pci_host_id) cx_fg cc_bg
          ∷ text_at 2 6 "PCI 00:13.0 id  :" cb_fg
          ∷ bytes_at 21 6 (hex32_to_str dbg.pci_ahci_slot_id) cx_fg cc_bg
          ∷ text_at 2 7 "AHCI seen/ports :" cb_fg
          ∷ bytes_at 21 7
              (u32_to_str dbg.ahci_controllers_seen 8
                ++ 47 ∷ u32_to_str dbg.ahci_ports_considered 8)
              cx_fg cc_bg
          ∷ text_at 2 9 "Attach an ATA/SATA disk and restart the installer." cb_fg
          ∷ draw_bottom (codes "  Press any key to halt.")
          ∷ [])
        m)

  -- The end of a cancelled installation.
  unfoldable pub quit : Wiz → Setup a → Halted
  quit w m =
      let shown =
        on_screen a
          (vga_reset_viewport
            ∷ (λ s. vga_set_color s 7 0)
            ∷ vga_clear
            ∷ (λ s. vga_write_string s (codes "Installer cancelled.\n"))
            ∷ (λ s. vga_write_string s (codes "Press any key to halt.\n"))
            ∷ [])
          m in
      elim (next_char shown.keys) [
        | none ↦ none
        | some rest ↦ some (cancelled, w, record shown { keys = rest })
      ]

  -- The `switch` of the main loop.
  unfoldable pub run_stage : ℕ → Wiz → Setup a → Option (Turn × Wiz × Setup a)
  run_stage stage w m =
      if stage == 0
      then stage_welcome a w m
      else if stage == 1
      then stage_disk a w m
      else if stage == 2
      then stage_hostname a w m
      else if stage == 3
      then stage_timezone a w m
      else if stage == 4
      then stage_root_pw a w m
      else if stage == 5
      then stage_user a w m
      else if stage == 6
      then stage_summary a w m
      else stage_install a bootsect kernel entry_offset w m

  -- The loop of `installer_run`, and what follows it, for at most so many stages.
  unfoldable pub wizard : ℕ → ℕ → Wiz → Setup a → Halted
  wizard zero stage w m = some (unfinished, w, m)
  wizard (suc k) stage w m = elim (ltb 7 stage) [
    | true ↦ stage_complete w m
    | false ↦ elim (run_stage stage w m) [
      | none ↦ none
      | some r ↦ elim (r.0) [
        | next ↦ wizard k (suc stage) (r.1) (r.2)
        | back ↦ wizard k (stage - 1) (r.1) (r.2)
        | retry ↦ wizard k stage (r.1) (r.2)
        | cancel ↦ quit (r.1) (r.2)
        | halt ↦ some (failed, r.1, r.2)
      ]
    ]
  ]

  -- `installer_run` behind the scan for disks.
  unfoldable pub run_scanned : ℕ → AtaDebugState → Setup a → Disk a → Halted
  unfolding wizard_start
  run_scanned rounds dbg m d =
      let started = on_screen a blank_screen (record m { nodes = fs_init; disk = d }) in
      if disk_count a started.disk == 0
      then show_no_disk dbg wizard_start started
      else wizard rounds 0 wizard_start started

  unfoldable pub installer_run : ℕ → AtaDebugState → Setup a → Halted
  unfolding wizard_start run_scanned
  installer_run rounds dbg m = elim (disk_init a m.disk) [
    | none ↦ some (hanging, wizard_start, record m { nodes = fs_init })
    | some d ↦ run_scanned rounds dbg m d
  ]
