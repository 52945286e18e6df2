-- ===== src/Installer/Run/Keys.antt =====
-- kernel/installer.c: the menu and the text field take a key at least.
use fur_os.Prelude.{
  ℕ, suc, ◌-◌, ◌<◌, Bool, Option, none, some, List, [], ◌∷◌, length, arith, leb, ◌==◌,
  if◌then◌else◌, bool_branch,
}
use fur_os.Vga.{Screen}
use fur_os.Installer.{input_key}
use fur_os.Installer.Widgets.{
  is_enter, is_quit, move_selection, draw_menu, menu_from, run_menu, draw_field, run_input,
}

-- Fewer than `n` keys are left, where there is a result.
abbrev pub MenuUses : ℕ → Option (Option ℕ × Screen × List ℕ) → Type 0
MenuUses n none = Unit {0}
MenuUses n (some r) = length r.2 < n

abbrev pub InputUses : ℕ → Option (Bool × List ℕ × Screen × List ℕ) → Type 0
InputUses n none = Unit {0}
InputUses n (some r) = length r.3 < n

MenuUses-suc : (n : ℕ) (r : Option (Option ℕ × Screen × List ℕ)) → MenuUses n r → MenuUses (suc n) r
MenuUses-suc n none h = tt
MenuUses-suc n (some r) h = omega (arith, h)

InputUses-suc :
    (n : ℕ) (r : Option (Bool × List ℕ × Screen × List ℕ)) → InputUses n r → InputUses (suc n) r
InputUses-suc n none h = tt
InputUses-suc n (some r) h = omega (arith, h)

menu_from-MenuUses :
    (x y_top w : ℕ) (items : List (List ℕ)) (sel : ℕ) (s : Screen) (keys : List ℕ)
    → MenuUses (length keys) (menu_from x y_top w items sel s keys)
unfolding menu_from
menu_from-MenuUses x y_top w items sel s [] = tt
menu_from-MenuUses x y_top w items sel s (key ∷ rest) =
    let drawn : Screen = draw_menu x y_top w items sel s in
    let moved : ℕ = move_selection (length items) key sel in
    bool_branch (MenuUses (suc (length rest))) (is_enter key) (λ e. omega arith)
      (λ e.
        bool_branch (MenuUses (suc (length rest))) (is_quit key) (λ q. omega arith)
          (λ q.
            MenuUses-suc (length rest) (menu_from x y_top w items moved drawn rest)
              (menu_from-MenuUses x y_top w items moved drawn rest)))

pub run_input-InputUses :
    (x y w : ℕ) (masked : Bool) (max_len : ℕ) (buf : List ℕ) (s : Screen) (keys : List ℕ)
    → InputUses (length keys) (run_input x y w masked max_len buf s keys)
unfolding run_input
run_input-InputUses x y w masked max_len buf s [] = tt
run_input-InputUses x y w masked max_len buf s (key ∷ rest) =
    let drawn : Screen = draw_field x y w masked buf s in
    bool_branch (InputUses (suc (length rest))) (is_enter key) (λ e. omega arith)
      (λ e.
        bool_branch (InputUses (suc (length rest))) (key == 27) (λ q. omega arith)
          (λ q.
            InputUses-suc (length rest)
              (run_input x y w masked max_len (input_key max_len key buf) drawn rest)
              (run_input-InputUses x y w masked max_len (input_key max_len key buf) drawn rest)))

pub run_menu-MenuUses :
    (x y_top w : ℕ) (items : List (List ℕ)) (init : ℕ) (s : Screen) (keys : List ℕ)
    → MenuUses (length keys) (run_menu x y_top w items init s keys)
unfolding run_menu
run_menu-MenuUses x y_top w items init s keys =
    menu_from-MenuUses x y_top w items (if leb (length items) init then length items - 1 else init)
      s keys
