-- ===== src/Installer/Widgets.antt =====
-- kernel/installer.c: the menu and the text field, over the keys that `keyboard_get_key` returns.
use fur_os.Prelude.{
  ℕ, suc, ◌+◌, ◌-◌, Bool, true, false, ◌&&◌, ◌||◌, Option, none, some, List, [], ◌∷◌, ◌++◌, length,
  take, leb, ltb, ◌==◌, if◌then◌else◌, replicate,
}
use fur_os.Vga.{Screen, vga_set_cursor_pos}
use fur_os.Keyboard.{key_up, key_down}
use fur_os.Installer.{input_key}
use fur_os.Installer.Draw.{
  cb_fg, cb_bg, cs_fg, cs_bg, ci_fg, ci_bg, draw, put_at, fill_at, put_text, box_top, box_row,
  box_bot,
}

abbrev pub is_enter : ℕ → Bool
is_enter key = key == 10 || key == 13

-- ESC, or a key that a menu takes for it.
abbrev pub is_quit : ℕ → Bool
is_quit key = key == 27 || key == 113 || key == 81

-- The rows of the menu from item `i` on.
unfoldable pub menu_rows : ℕ → ℕ → ℕ → List (List ℕ) → ℕ → ℕ → Screen → Screen
menu_rows x y_top w [] i sel s = s
menu_rows x y_top w (item ∷ rest) i sel s =
    let line : ℕ → List ℕ = λ c. 32 ∷ c ∷ 32 ∷ take (w - 5) item in
    menu_rows x y_top w rest (suc i) sel (
      if i == sel
      then box_row x (y_top + 1 + i) w (line 0x10) cs_fg cs_bg s
      else box_row x (y_top + 1 + i) w (line 32) cb_fg cb_bg s)

unfoldable pub draw_menu : ℕ → ℕ → ℕ → List (List ℕ) → ℕ → Screen → Screen
unfolding draw menu_rows
draw_menu x y_top w items sel = draw (
    box_top x y_top w
    ∷ menu_rows x y_top w items 0 sel
    ∷ box_bot x (y_top + length items + 1) w
    ∷ (λ s. vga_set_cursor_pos s (x + 3) (y_top + 1 + sel))
    ∷ [])

-- What a key that neither ends nor leaves the menu makes of the selection.
abbrev pub move_selection : ℕ → ℕ → ℕ → ℕ
move_selection count key sel =
    if key == key_up && ltb 0 sel
    then sel - 1
    else if key == key_down && ltb sel (count - 1)
    then sel + 1
    else sel

-- The loop of `run_menu`: the item chosen, or `none` after ESC or Q, with the keys that are left.
unfoldable pub menu_from :
    ℕ → ℕ → ℕ → List (List ℕ) → ℕ → Screen → List ℕ → Option (Option ℕ × Screen × List ℕ)
menu_from x y_top w items sel s [] = none
menu_from x y_top w items sel s (key ∷ rest) =
    let drawn = draw_menu x y_top w items sel s in
    elim (is_enter key) [
      | true ↦ some (some sel, drawn, rest)
      | false ↦ elim (is_quit key) [
        | true ↦ some (none, drawn, rest)
        | false ↦ menu_from x y_top w items (move_selection (length items) key sel) drawn rest
      ]
    ]

-- The callers pass at least one item, and no negative selection.
unfoldable pub run_menu :
    ℕ → ℕ → ℕ → List (List ℕ) → ℕ → Screen → List ℕ → Option (Option ℕ × Screen × List ℕ)
run_menu x y_top w items init_sel s keys =
    let sel = if leb (length items) init_sel then length items - 1 else init_sel in
    menu_from x y_top w items sel s keys

-- A field, with the text in it or as many stars.
unfoldable pub draw_field : ℕ → ℕ → ℕ → Bool → List ℕ → Screen → Screen
unfolding draw put_text
draw_field x y w masked buf =
    let shown = if masked then replicate (length buf) 42 else buf in
    draw (
      box_top x (y - 1) w
      ∷ put_at x y 0xB3 cb_fg cb_bg
      ∷ fill_at (x + 1) y (w - 2) 1 32 ci_fg ci_bg
      ∷ put_text (x + 1) y (take (w - 2) (shown ++ 95 ∷ [])) ci_fg ci_bg
      ∷ put_at (x + w - 1) y 0xB3 cb_fg cb_bg
      ∷ box_bot x (y + 1) w
      ∷ (λ s. vga_set_cursor_pos s (x + 1 + length buf) y)
      ∷ [])

-- The text when Enter or ESC comes, and whether it was Enter, with the keys that are left.
unfoldable pub run_input :
    ℕ → ℕ → ℕ → Bool → ℕ → List ℕ → Screen → List ℕ → Option (Bool × List ℕ × Screen × List ℕ)
run_input x y w masked max_len buf s [] = none
run_input x y w masked max_len buf s (key ∷ rest) =
    let drawn = draw_field x y w masked buf s in
    elim (is_enter key) [
      | true ↦ some (true, buf, drawn, rest)
      | false ↦ elim (key == 27) [
        | true ↦ some (false, buf, drawn, rest)
        | false ↦ run_input x y w masked max_len (input_key max_len key buf) drawn rest
      ]
    ]
