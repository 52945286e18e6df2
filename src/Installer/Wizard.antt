-- ===== src/Installer/Wizard.antt =====
-- kernel/installer.c: the state of the wizard, and the stages that ask for texts.
use fur_os.Prelude.{
  ℕ, suc, ◌-◌, Bool, true, false, Option, none, some, List, [], ◌∷◌, ◌++◌, codes, String, length,
  get_or, ltb, ◌==◌, if◌then◌else◌, not,
}
use fur_os.KString.{str_eq}
use fur_os.Fs.Node.{Nodes}
use fur_os.Vga.{Screen}
use fur_os.Disk.Drive.{Drive}
use fur_os.Disk.Store.{Disk}
use fur_os.Installer.Draw.{
  cc_fg, cc_bg, cb_fg, cw_fg, scr_w, draw, text_at, fill_at, draw_header, clear_content,
  draw_bottom,
}
use fur_os.Installer.Widgets.{run_menu, run_input}

-- `disk_index` is `none` for -1. The texts are the bytes before their terminators.
pub record Wiz : Type 0 where
  pub disk_index : Option ℕ
  pub hostname : List ℕ
  pub timezone : List ℕ
  pub root_pw : List ℕ
  pub username : List ℕ
  pub user_pw : List ℕ

-- What a stage returns: 1, 0 or -1. `retry` stands for a stage's call of itself, `halt` for
-- `halt_forever` within it.
pub data Turn : Type 0 where
  next : Turn
  back : Turn
  cancel : Turn
  retry : Turn
  halt : Turn

abbrev pub or_default : List ℕ → String → List ℕ
or_default buf text = if length buf == 0 then codes text else buf

abbrev pub tzones : List (List ℕ)
tzones =
    codes "UTC"
    ∷ codes "America/New_York"
    ∷ codes "America/Chicago"
    ∷ codes "America/Denver"
    ∷ codes "America/Los_Angeles"
    ∷ codes "America/Sao_Paulo"
    ∷ codes "Europe/London"
    ∷ codes "Europe/Paris"
    ∷ codes "Europe/Berlin"
    ∷ codes "Europe/Moscow"
    ∷ codes "Asia/Dubai"
    ∷ codes "Asia/Kolkata"
    ∷ codes "Asia/Tokyo"
    ∷ codes "Asia/Shanghai"
    ∷ codes "Australia/Sydney"
    ∷ []

-- The first item that equals the text, from number `i` on, or 0.
unfoldable pub index_of : List ℕ → ℕ → List (List ℕ) → ℕ
index_of text i [] = 0
index_of text i (item ∷ rest) = elim (str_eq text item) [
  | true ↦ i
  | false ↦ index_of text (suc i) rest
]

module _ (a : Drive) where
  -- The machine that the installer runs on; `keys` is what `keyboard_get_key` will return.
  pub record Setup : Type 0 where
    pub screen : Screen
    pub nodes : Nodes
    pub disk : Disk a
    pub keys : List ℕ

  -- What a stage leaves; `none` where it waits for a key.
  abbrev pub Stage : Type 0
  Stage = Wiz → Setup → Option (Turn × Wiz × Setup)

  abbrev pub on_screen : List (Screen → Screen) → Setup → Setup
  on_screen fs m = record m { screen = draw fs m.screen }

  abbrev pub with_keys : Setup → Screen → List ℕ → Setup
  with_keys m s keys = record m { screen = s; keys = keys }

  -- A call of `keyboard_get_key` whose result is not looked at, before the stage returns.
  unfoldable pub key_then : Turn → Wiz → Setup → List ℕ → Option (Turn × Wiz × Setup)
  key_then t w m [] = none
  key_then t w m (_ ∷ rest) = some (t, w, record m { keys = rest })

  abbrev pub any_key : Turn → Stage
  any_key t w m = key_then t w m m.keys

  -- A text field; ESC goes back, and Enter on.
  abbrev pub ask :
      ℕ
      → ℕ
      → Bool
      → ℕ
      → List ℕ
      → Setup
      → (Bool → List ℕ → Setup → Option (Turn × Wiz × Setup))
      → Option (Turn × Wiz × Setup)
  ask y w masked max_len buf m then_do = elim (run_input 2 y w masked max_len buf m.screen m.keys) [
    | none ↦ none
    | some r ↦ then_do (r.0) (r.1) (with_keys m (r.2) (r.3))
  ]

  unfoldable pub show_hostname : Setup → Setup
  show_hostname = on_screen (
      draw_header 3 7 "Hostname"
      ∷ clear_content
      ∷ text_at 2 2 "Enter the hostname for this computer:" cc_fg
      ∷ text_at 2 3 "Use lowercase letters, digits, and hyphens only." cb_fg
      ∷ text_at 2 4 "Examples: furos-pc  my-laptop  workstation" cb_fg
      ∷ text_at 2 6 "Hostname:" cc_fg
      ∷ draw_bottom (codes "  ENTER: Confirm   ESC/Q: Back")
      ∷ [])

  -- What a stage does after a field, whether Enter or ESC ended it; `after_...` below are of this kind.
  unfoldable pub after_hostname : Wiz → Bool → List ℕ → Setup → Option (Turn × Wiz × Setup)
  after_hostname w entered buf m =
      if entered
      then some (next, record w { hostname = or_default buf "furos" }, m)
      else some (back, record w { hostname = buf }, m)

  unfoldable pub stage_hostname : Stage
  stage_hostname w m =
      ask 8 40 false 32 (or_default w.hostname "furos") (show_hostname m) (after_hostname w)

  unfoldable pub show_timezone : Setup → Setup
  show_timezone = on_screen (
      draw_header 4 7 "Timezone"
      ∷ clear_content
      ∷ text_at 2 2 "Select your timezone:" cc_fg
      ∷ draw_bottom (codes "  " ++ 0x18 ∷ 0x19 ∷ codes ": Move   ENTER: Select   ESC/Q: Back")
      ∷ [])

  -- A menu, what follows an item, and ESC or Q, which go back.
  abbrev pub pick :
      ℕ
      → List (List ℕ)
      → ℕ
      → Wiz
      → Setup
      → (ℕ → Setup → Option (Turn × Wiz × Setup))
      → Option (Turn × Wiz × Setup)
  pick y_top items init w m then_do =
      elim (run_menu 2 y_top (scr_w - 4) items init m.screen m.keys) [
        | none ↦ none
        | some r ↦ elim (r.0) [
          | none ↦ some (back, w, with_keys m (r.1) (r.2))
          | some sel ↦ then_do sel (with_keys m (r.1) (r.2))
        ]
      ]

  unfoldable pub after_timezone : Wiz → ℕ → Setup → Option (Turn × Wiz × Setup)
  after_timezone w sel m = some (next, record w { timezone = get_or tzones sel [] }, m)

  unfoldable pub stage_timezone : Stage
  stage_timezone w m =
      pick 4 tzones (index_of w.timezone 0 tzones) w (show_timezone m) (after_timezone w)

  -- The end of the two stages that ask for a password twice.
  abbrev mismatch : ℕ → Stage
  mismatch y w m = any_key retry w (
      on_screen
        (fill_at 2 y 60 1 32 cw_fg cc_bg
          ∷ text_at 2 y "Passwords do not match! Press any key to try again." cw_fg
          ∷ [])
        m)

  unfoldable pub show_root_pw : Setup → Setup
  show_root_pw = on_screen (
      draw_header 5 7 "Root Password"
      ∷ clear_content
      ∷ text_at 2 2 "Set the root (administrator) password." cc_fg
      ∷ text_at 2 3 "Root has full control over the system." cb_fg
      ∷ text_at 2 5 "Password:" cc_fg
      ∷ text_at 2 9 "Confirm password:" cc_fg
      ∷ draw_bottom (codes "  ENTER: Confirm   ESC/Q: Back")
      ∷ [])

  unfoldable pub confirm_root_pw : Wiz → Bool → List ℕ → Setup → Option (Turn × Wiz × Setup)
  confirm_root_pw w entered confirm m =
      if not entered
      then some (back, w, m)
      else if str_eq w.root_pw confirm
      then some (next, w, m)
      else mismatch 13 (record w { root_pw = [] }) m

  unfoldable pub after_root_pw : Wiz → Bool → List ℕ → Setup → Option (Turn × Wiz × Setup)
  after_root_pw w entered pw m =
      let v = record w { root_pw = pw } in
      if not entered then some (back, v, m) else ask 11 44 true 64 [] m (confirm_root_pw v)

  unfoldable pub stage_root_pw : Stage
  stage_root_pw w m = ask 7 44 true 64 w.root_pw (show_root_pw m) (after_root_pw w)

  unfoldable pub show_user : Setup → Setup
  show_user = on_screen (
      draw_header 6 7 "User Account"
      ∷ clear_content
      ∷ text_at 2 2 "Create a regular user account." cc_fg
      ∷ text_at 2 3 "Use lowercase letters and digits only. Minimum 2 characters." cb_fg
      ∷ text_at 2 5 "Username:" cc_fg
      ∷ text_at 2 9 "Password:" cc_fg
      ∷ text_at 2 13 "Confirm password:" cc_fg
      ∷ draw_bottom (codes "  ENTER: Confirm   ESC/Q: Back")
      ∷ [])

  unfoldable pub confirm_user_pw : Wiz → Bool → List ℕ → Setup → Option (Turn × Wiz × Setup)
  confirm_user_pw w entered confirm m =
      if not entered
      then some (back, w, m)
      else if str_eq w.user_pw confirm
      then some (next, w, m)
      else mismatch 17 (record w { user_pw = [] }) m

  unfoldable pub after_user_pw : Wiz → Bool → List ℕ → Setup → Option (Turn × Wiz × Setup)
  after_user_pw w entered pw m =
      let v = record w { user_pw = pw } in
      if not entered then some (back, v, m) else ask 15 44 true 64 [] m (confirm_user_pw v)

  unfoldable pub after_username : Wiz → Bool → List ℕ → Setup → Option (Turn × Wiz × Setup)
  after_username w entered name m =
      let u = record w { username = if ltb (length name) 2 then codes "debian" else name } in
      if not entered
      then some (back, record w { username = name }, m)
      else ask 11 44 true 64 w.user_pw m (after_user_pw u)

  unfoldable pub stage_user : Stage
  stage_user w m =
      ask 7 30 false 32 (or_default w.username "debian") (show_user m) (after_username w)
