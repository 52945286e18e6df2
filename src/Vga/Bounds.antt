-- ===== src/Vga/Bounds.antt =====
-- The cursor stays on the screen, so that every cell that is stored to lies in the memory.
use fur_os.Prelude.{
  ℕ, zero, suc, ◌^◌, ◌+◌, ◌-◌, ◌≤◌, ◌<◌, ◌≡◌, refl, List, [], ◌∷◌, arith, length, length-set, set,
  get_or, ◌==◌, Bool-cases, inl, inr,
}
use fur_os.Vga.{
  Screen, cell, slt, dec, copy_line, copy_lines, fill_line, fill_lines, vga_entry, vga_scroll,
  vga_clear, vga_newline, vga_putchar, step_back, vga_backspace, vga_write_string,
  vga_set_cursor_pos, vga_set_viewport, vga_width, vga_height,
}

-- The cursor is on the screen, and the viewport is a range of its lines.
pub record IsOnScreen (s : Screen) : Type 0 where
  pub row : s.row < vga_height
  pub column : s.column < vga_width
  pub top : s.vp_top ≤ s.vp_bot
  pub bottom : s.vp_bot < vga_height
  pub memory : length s.memory ≡ 2000

length-copy_line : (k x y : ℕ) (m : List ℕ) → length (copy_line k x y m) ≡ length m
unfolding copy_line
length-copy_line zero x y m = refl
length-copy_line (suc k) x y m = omega (
  arith,
  length-copy_line k (suc x) y (set m (cell (y - 1) x) (get_or m (cell y x) 0)),
  length-set m (cell (y - 1) x) (get_or m (cell y x) 0),
)

length-copy_lines : (k y : ℕ) (m : List ℕ) → length (copy_lines k y m) ≡ length m
unfolding copy_lines
length-copy_lines zero y m = refl
length-copy_lines (suc k) y m = omega (
  arith,
  length-copy_lines k (suc y) (copy_line vga_width 0 y m),
  length-copy_line vga_width 0 y m,
)

length-fill_line : (k x y e : ℕ) (m : List ℕ) → length (fill_line k x y e m) ≡ length m
unfolding fill_line
length-fill_line zero x y e m = refl
length-fill_line (suc k) x y e m =
    omega (arith, length-fill_line k (suc x) y e (set m (cell y x) e), length-set m (cell y x) e)

length-fill_lines : (k y e : ℕ) (m : List ℕ) → length (fill_lines k y e m) ≡ length m
unfolding fill_lines
length-fill_lines zero y e m = refl
length-fill_lines (suc k) y e m = omega (
  arith,
  length-fill_lines k (suc y) e (fill_line vga_width 0 y e m),
  length-fill_line vga_width 0 y e m,
)

length-vga_scroll : (s : Screen) → length (vga_scroll s).memory ≡ length s.memory
unfolding vga_scroll
length-vga_scroll s = omega (
  arith,
  length-fill_line vga_width 0 s.vp_bot (vga_entry 32 s.color)
      (copy_lines (s.vp_bot - s.vp_top) (s.vp_top + 1) s.memory),
  length-copy_lines (s.vp_bot - s.vp_top) (s.vp_top + 1) s.memory,
)

-- `vga_clear` keeps the cursor on the screen.
pub vga_clear-IsOnScreen : (s : Screen) → IsOnScreen s → IsOnScreen (vga_clear s)
unfolding vga_clear
vga_clear-IsOnScreen s v =
    ground
      (arith, length-fill_lines (s.vp_bot + 1 - s.vp_top) s.vp_top (vga_entry 32 s.color) s.memory)

-- The column may be 80 here: `vga_putchar` calls it so.
newline-IsOnScreen :
    (s : Screen)
    → s.row < vga_height
    → s.vp_top ≤ s.vp_bot
    → s.vp_bot < vga_height
    → length s.memory ≡ 2000
    → IsOnScreen (vga_newline s)
unfolding vga_newline vga_scroll
newline-IsOnScreen s r t b m = elim (Bool-cases (slt s.vp_bot (s.row + 1))) [
  | inl e ↦ rw e (record {
    row = b;
    column = omega arith;
    top = t;
    bottom = b;
    memory = unfold vga_scroll in ground (arith, length-vga_scroll s);
  })
  | inr e ↦
      rw e (record { row = ground arith; column = omega arith; top = t; bottom = b; memory = m })
]

-- `vga_putchar` keeps the cursor on the screen, at the right end and on the last line too.
pub vga_putchar-IsOnScreen : (s : Screen) (c : ℕ) → IsOnScreen s → IsOnScreen (vga_putchar s c)
unfolding vga_putchar
vga_putchar-IsOnScreen s c v =
    let m : List ℕ = set s.memory (cell s.row s.column) (vga_entry c s.color) in
    let l : length m ≡ 2000 =
      ground (arith, length-set s.memory (cell s.row s.column) (vga_entry c s.color), v.memory) in
    let t : Screen = record s { memory = m; column = s.column + 1 } in
    elim (Bool-cases (c == 10)) [
      | inl e ↦ rw e (newline-IsOnScreen s v.row v.top v.bottom v.memory)
      | inr e ↦ elim (Bool-cases (c == 13)) [
        | inl f ↦
            rw (e, f)
              (record {
                row = v.row;
                column = omega arith;
                top = v.top;
                bottom = v.bottom;
                memory = v.memory;
              })
        | inr f ↦ elim (Bool-cases (slt t.column vga_width)) [
          | inl g ↦
              rw (e, f, g)
                (record {
                  row = v.row;
                  column = ground arith;
                  top = v.top;
                  bottom = v.bottom;
                  memory = l;
                })
          | inr g ↦ rw (e, f, g) (newline-IsOnScreen t v.row v.top v.bottom l)
        ]
      ]
    ]

-- Whatever is written, the cursor stays on the screen.
vga_write_string-IsOnScreen :
    (str : List ℕ) (s : Screen) → IsOnScreen s → IsOnScreen (vga_write_string s str)
unfolding vga_write_string
vga_write_string-IsOnScreen [] s v = v
vga_write_string-IsOnScreen (c ∷ str) s v = elim (Bool-cases (c == 0)) [
  | inl e ↦ rw (e, vga_write_string) v
  | inr e ↦
      rw (e, vga_write_string)
        (vga_write_string-IsOnScreen str (vga_putchar s c) (vga_putchar-IsOnScreen s c v))
]

-- From a line that is not above the viewport, `vga_backspace` keeps the cursor on the screen and
-- not above the viewport.
pub vga_backspace-IsOnScreen :
    (s : Screen)
    → IsOnScreen s
    → s.vp_top ≤ s.row
    → IsOnScreen (vga_backspace s) × (s.vp_top ≤ (vga_backspace s).row)
unfolding vga_backspace step_back
vga_backspace-IsOnScreen s v h = ground (
  arith,
  length-set s.memory (cell (dec s.row) 79) (vga_entry 32 s.color),
  length-set s.memory (cell s.row (dec s.column)) (vga_entry 32 s.color),
)

-- Setting the viewport with any arguments below 2^31, with the cursor on the screen, gives a range
-- of lines of the screen that the cursor is in.
vga_set_viewport-IsOnScreen :
    (s : Screen) (top bottom : ℕ)
    → IsOnScreen s
    → top < 2 ^ 31
    → bottom < 2 ^ 31
    → IsOnScreen (vga_set_viewport s top bottom)
      × ((vga_set_viewport s top bottom).vp_top ≤ (vga_set_viewport s top bottom).row)
      × ((vga_set_viewport s top bottom).row ≤ (vga_set_viewport s top bottom).vp_bot)
unfolding vga_set_viewport
vga_set_viewport-IsOnScreen s top bottom v a b = ground arith

vga_set_cursor_pos-IsOnScreen :
    (s : Screen) (x y : ℕ)
    → x < 2 ^ 32
    → y < 2 ^ 32
    → IsOnScreen s
    → IsOnScreen (vga_set_cursor_pos s x y)
unfolding vga_set_cursor_pos
vga_set_cursor_pos-IsOnScreen s x y a b v = ground arith
