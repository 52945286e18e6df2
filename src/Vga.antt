-- ===== src/Vga.antt =====
-- kernel/vga.c: the text screen.
--
-- The memory is the list of the 80 * 25 cells. An `int` is its 32-bit pattern: sums wrap, and `slt`
-- is the signed order. A store outside the list changes nothing here; Vga/Bounds shows when the
-- source never makes one.
pub mod Bounds
pub mod Viewport
pub mod View
use Prim.Native.Nat.{bit_or}
use fur_os.Prelude.{
  ℕ, zero, suc, ◌+◌, ◌-◌, ◌*◌, ◌%◌, ◌^◌, Bool, true, false, ◌&&◌, ◌||◌, not, List, [], ◌∷◌, get_or,
  set, ltb, leb, ◌==◌, if◌then◌else◌,
}

abbrev pub vga_width : ℕ
vga_width = 80

abbrev pub vga_height : ℕ
vga_height = 25

-- a < b, for `int`
abbrev pub slt : ℕ → ℕ → Bool
slt a b = ltb ((a + 2 ^ 31) % 2 ^ 32) ((b + 2 ^ 31) % 2 ^ 32)

-- x - 1, for `int`
abbrev pub dec : ℕ → ℕ
dec x = (x + (2 ^ 32 - 1)) % 2 ^ 32

-- `terminal_row`, `terminal_column`, `terminal_color`, the viewport and the memory.
pub record Screen : Type 0 where
  pub row : ℕ
  pub column : ℕ
  pub color : ℕ
  pub vp_top : ℕ
  pub vp_bot : ℕ
  pub memory : List ℕ

unfoldable pub vga_entry_color : ℕ → ℕ → ℕ
vga_entry_color fg bg = bit_or fg (bg * 16 % 256) % 256

unfoldable pub vga_entry : ℕ → ℕ → ℕ
vga_entry uc color = bit_or uc (color * 256 % 65536)

unfoldable pub vga_set_color : Screen → ℕ → ℕ → Screen
vga_set_color s fg bg = record s { color = vga_entry_color fg bg }

-- y * VGA_WIDTH + x, as the index of a cell
abbrev pub cell : ℕ → ℕ → ℕ
cell y x = (y * vga_width + x) % 2 ^ 32

-- The inner loop of `vga_scroll`, from column `x` on: the line `y` is copied one line up.
unfoldable pub copy_line : ℕ → ℕ → ℕ → List ℕ → List ℕ
copy_line zero x y memory = memory
copy_line (suc k) x y memory =
    copy_line k (suc x) y (set memory (cell (y - 1) x) (get_or memory (cell y x) 0))

-- The outer loop, from line `y` on.
unfoldable pub copy_lines : ℕ → ℕ → List ℕ → List ℕ
copy_lines zero y memory = memory
copy_lines (suc k) y memory = copy_lines k (suc y) (copy_line vga_width 0 y memory)

-- A line that is filled with one cell, from column `x` on.
unfoldable pub fill_line : ℕ → ℕ → ℕ → ℕ → List ℕ → List ℕ
fill_line zero x y entry memory = memory
fill_line (suc k) x y entry memory = fill_line k (suc x) y entry (set memory (cell y x) entry)

unfoldable pub fill_lines : ℕ → ℕ → ℕ → List ℕ → List ℕ
fill_lines zero y entry memory = memory
fill_lines (suc k) y entry memory =
    fill_lines k (suc y) entry (fill_line vga_width 0 y entry memory)

unfoldable pub vga_scroll : Screen → Screen
vga_scroll s = record s {
  memory =
      fill_line vga_width 0 s.vp_bot (vga_entry 32 s.color)
        (copy_lines (s.vp_bot - s.vp_top) (s.vp_top + 1) s.memory);
}

unfoldable pub vga_clear : Screen → Screen
vga_clear s = record s {
  memory = fill_lines (s.vp_bot + 1 - s.vp_top) s.vp_top (vga_entry 32 s.color) s.memory;
  row = s.vp_top;
  column = 0;
}

unfoldable pub vga_newline : Screen → Screen
vga_newline s =
    if slt s.vp_bot (s.row + 1)
    then record (vga_scroll s) { column = 0; row = s.vp_bot }
    else record s { column = 0; row = s.row + 1 }

unfoldable pub vga_putchar : Screen → ℕ → Screen
vga_putchar s c =
    if c == 10
    then vga_newline s
    else if c == 13
    then record s { column = 0 }
    else (let t = record s {
      memory = set s.memory (cell s.row s.column) (vga_entry c s.color);
      column = s.column + 1;
    } in
        if slt t.column vga_width then t else vga_newline t)

-- The cell that is blanked, after the cursor has moved back to it.
unfoldable pub step_back : Screen → Screen
step_back s =
    if s.column == 0
    then record s { row = dec s.row; column = vga_width - 1 }
    else record s { column = dec s.column }

unfoldable pub vga_backspace : Screen → Screen
vga_backspace s =
    if s.row == s.vp_top && s.column == 0
    then s
    else (let t = step_back s in
        record t { memory = set t.memory (cell t.row t.column) (vga_entry 32 t.color) })

-- The string ends at its first zero.
unfoldable pub vga_write_string : Screen → List ℕ → Screen
vga_write_string s [] = s
vga_write_string s (c ∷ str) = elim (c == 0) [
  | true ↦ s
  | false ↦ vga_write_string (vga_putchar s c) str
]

unfoldable pub vga_put_at : Screen → ℕ → ℕ → ℕ → ℕ → ℕ → Screen
vga_put_at s x y c fg bg =
    if slt x 0 || slt y 0 || not (slt x vga_width) || not (slt y vga_height)
    then s
    else record s { memory = set s.memory (cell y x) (vga_entry c (vga_entry_color fg bg)) }

unfoldable pub vga_write_str_at : Screen → ℕ → ℕ → List ℕ → ℕ → ℕ → Screen
vga_write_str_at s x y [] fg bg = s
vga_write_str_at s x y (c ∷ str) fg bg = elim (not (c == 0) && slt x vga_width) [
  | false ↦ s
  | true ↦
      vga_write_str_at
        (if not (slt x 0) && not (slt y 0) && slt y vga_height
          then record s { memory = set s.memory (cell y x) (vga_entry c (vga_entry_color fg bg)) }
          else s)
        ((x + 1) % 2 ^ 32) y str fg bg
]

-- One line of `vga_fill_rect`, with `w` columns left from `col` on, and its lines from `row` on.
unfoldable pub fill_columns : ℕ → ℕ → ℕ → ℕ → List ℕ → List ℕ
fill_columns zero col row entry memory = memory
fill_columns (suc w) col row entry memory =
    fill_columns w ((col + 1) % 2 ^ 32) row entry
      (if slt col 0 || not (slt col vga_width) then memory else set memory (cell row col) entry)

unfoldable pub fill_rows : ℕ → ℕ → ℕ → ℕ → ℕ → List ℕ → List ℕ
fill_rows zero x row w entry memory = memory
fill_rows (suc h) x row w entry memory =
    fill_rows h x ((row + 1) % 2 ^ 32) w entry
      (if slt row 0 || not (slt row vga_height) then memory else fill_columns w x row entry memory)

-- For `w` and `h` that are not negative, and corners in the range of `int`.
unfoldable pub vga_fill_rect : Screen → ℕ → ℕ → ℕ → ℕ → ℕ → ℕ → ℕ → Screen
vga_fill_rect s x y w h c fg bg = record s {
  memory = fill_rows h x y w (vga_entry c (vga_entry_color fg bg)) s.memory;
}

abbrev pub clamp_to : ℕ → ℕ → ℕ
clamp_to limit x = if slt x 0 then 0 else if slt x limit then x else limit - 1

unfoldable pub vga_set_cursor_pos : Screen → ℕ → ℕ → Screen
vga_set_cursor_pos s x y = record s { column = clamp_to vga_width x; row = clamp_to vga_height y }

unfoldable pub vga_set_viewport : Screen → ℕ → ℕ → Screen
vga_set_viewport s top bottom =
    let t = if slt top 0 then 0 else top in
    let b = if slt bottom vga_height then bottom else vga_height - 1 in
    let t' = if slt b t then b else t in
    let r = if slt s.row t' then t' else s.row in
    record s { vp_top = t'; vp_bot = b; row = if slt b r then b else r }

unfoldable pub vga_reset_viewport : Screen → Screen
vga_reset_viewport s = record s { vp_top = 0; vp_bot = vga_height - 1 }
