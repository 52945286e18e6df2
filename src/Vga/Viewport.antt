-- ===== src/Vga/Viewport.antt =====
-- Printing, scrolling and clearing change no cell outside the viewport.
use fur_os.Prelude.{
  ℕ, zero, suc, ◌+◌, ◌-◌, ◌*◌, ◌≤◌, ◌<◌, ◌≡◌, refl, ◌∙◌, ◌⊎◌, inl, inr, List, [], ◌∷◌, arith, set,
  get_or, get_or-set_ne, ◌==◌, Bool-cases,
}
use fur_os.Vga.{
  Screen, cell, copy_line, copy_lines, fill_line, fill_lines, vga_entry, vga_scroll, vga_newline,
  vga_putchar, vga_write_string,
}
use fur_os.Vga.Bounds.{IsOnScreen, vga_putchar-IsOnScreen}

-- The cell `i` is on no line from `top` to `bot`.
abbrev pub IsOutside : ℕ → ℕ → ℕ → Type 0
IsOutside top bot i = (i < top * 80) ⊎ ((bot + 1) * 80 ≤ i)

fill_line-outside :
    (k x y e : ℕ) (m : List ℕ) (i : ℕ)
    → x + k ≤ 80
    → y < 25
    → IsOutside y y i
    → get_or (fill_line k x y e m) i 0 ≡ get_or m i 0
unfolding fill_line
fill_line-outside zero x y e m i h l o = refl
fill_line-outside (suc k) x y e m i h l o =
    fill_line-outside k (suc x) y e (set m (cell y x) e) i (omega arith) l o
    ∙ get_or-set_ne m (cell y x) i e 0 (omega arith)

fill_lines-outside :
    (k y e : ℕ) (m : List ℕ) (i : ℕ)
    → y + k ≤ 25
    → (i < y * 80) ⊎ ((y + k) * 80 ≤ i)
    → get_or (fill_lines k y e m) i 0 ≡ get_or m i 0
unfolding fill_lines
fill_lines-outside zero y e m i h o = refl
fill_lines-outside (suc k) y e m i h o =
    fill_lines-outside k (suc y) e (fill_line 80 0 y e m) i (omega arith) (omega arith)
    ∙ fill_line-outside 80 0 y e m i (omega arith) (omega arith) (omega arith)

copy_line-outside :
    (k x y : ℕ) (m : List ℕ) (i : ℕ)
    → x + k ≤ 80
    → y ≤ 25
    → IsOutside (y - 1) (y - 1) i
    → get_or (copy_line k x y m) i 0 ≡ get_or m i 0
unfolding copy_line
copy_line-outside zero x y m i h l o = refl
copy_line-outside (suc k) x y m i h l o =
    copy_line-outside k (suc x) y (set m (cell (y - 1) x) (get_or m (cell y x) 0)) i (omega arith) l
      o
    ∙ get_or-set_ne m (cell (y - 1) x) i (get_or m (cell y x) 0) 0 (omega arith)

copy_lines-outside :
    (k y : ℕ) (m : List ℕ) (i : ℕ)
    → 0 < y
    → y + k ≤ 25
    → (i < (y - 1) * 80) ⊎ ((y + k) * 80 ≤ i)
    → get_or (copy_lines k y m) i 0 ≡ get_or m i 0
unfolding copy_lines
copy_lines-outside zero y m i p h o = refl
copy_lines-outside (suc k) y m i p h o =
    copy_lines-outside k (suc y) (copy_line 80 0 y m) i (omega arith) (omega arith) (omega arith)
    ∙ copy_line-outside 80 0 y m i (omega arith) (omega arith) (omega arith)

module _ (s : Screen) (top : s.vp_top ≤ s.vp_bot) (bottom : s.vp_bot < 25) (i : ℕ)
    (o : IsOutside s.vp_top s.vp_bot i) where
  pub vga_scroll-outside : get_or (vga_scroll s).memory i 0 ≡ get_or s.memory i 0
  unfolding vga_scroll
  vga_scroll-outside =
      fill_line-outside 80 0 s.vp_bot (vga_entry 32 s.color)
        (copy_lines (s.vp_bot - s.vp_top) (s.vp_top + 1) s.memory) i (omega arith) (omega arith)
        (omega arith)
      ∙ copy_lines-outside (s.vp_bot - s.vp_top) (s.vp_top + 1) s.memory i (omega arith)
          (omega arith) (omega arith)

newline-same :
    (s : Screen)
    → s.vp_top ≤ s.vp_bot
    → s.vp_bot < 25
    → (i : ℕ) → IsOutside s.vp_top s.vp_bot i
    → get_or (vga_newline s).memory i 0 ≡ get_or s.memory i 0
unfolding vga_newline
newline-same s t b i o = ground (arith, vga_scroll-outside s t b i o)

-- What a step of printing keeps: the viewport, the cursor in it, and the cells outside it.
pub record Confined (s t : Screen) : Type 0 where
  pub on_screen : IsOnScreen t
  pub inside : t.vp_top ≤ t.row
  pub within : t.row ≤ t.vp_bot
  pub same_top : t.vp_top ≡ s.vp_top
  pub same_bot : t.vp_bot ≡ s.vp_bot
  pub same : (i : ℕ) → IsOutside s.vp_top s.vp_bot i → get_or t.memory i 0 ≡ get_or s.memory i 0

module _ (s : Screen) (c : ℕ) (v : IsOnScreen s) (above : s.vp_top ≤ s.row)
    (low : s.row ≤ s.vp_bot) where
  put-same :
      (i : ℕ)
      → IsOutside s.vp_top s.vp_bot i
      → get_or (set s.memory (cell s.row s.column) (vga_entry c s.color)) i 0 ≡ get_or s.memory i 0
  put-same i o =
      get_or-set_ne s.memory (cell s.row s.column) i (vga_entry c s.color) 0
        (omega (arith, v.row, v.column))

  putchar-same :
      (i : ℕ)
      → IsOutside s.vp_top s.vp_bot i
      → get_or (vga_putchar s c).memory i 0 ≡ get_or s.memory i 0
  unfolding vga_putchar
  putchar-same i o =
      let t : Screen = record s {
        memory = set s.memory (cell s.row s.column) (vga_entry c s.color);
        column = s.column + 1;
      } in
      ground
        (arith, newline-same s v.top v.bottom i o, newline-same t v.top v.bottom i o, put-same i o)

  -- `vga_putchar` from inside the viewport stays in it, and changes no cell outside.
  pub vga_putchar-Confined : Confined s (vga_putchar s c)
  vga_putchar-Confined = record {
    on_screen = vga_putchar-IsOnScreen s c v;
    inside = unfold vga_putchar vga_newline vga_scroll in ground arith;
    within = unfold vga_putchar vga_newline vga_scroll in ground arith;
    same_top = unfold vga_putchar vga_newline vga_scroll in ground arith;
    same_bot = unfold vga_putchar vga_newline vga_scroll in ground arith;
    same = putchar-same;
  }

Confined-trans : {s t u : Screen} → Confined s t → Confined t u → Confined s u
Confined-trans {s} {t} {u} p q = record {
  on_screen = q.on_screen;
  inside = q.inside;
  within = q.within;
  same_top = q.same_top ∙ p.same_top;
  same_bot = q.same_bot ∙ p.same_bot;
  same = λ i o. q.same i (rw (p.same_top, p.same_bot) o) ∙ p.same i o;
}

-- Text of any length that is written from inside the viewport scrolls there: the cursor stays on
-- the screen and in the viewport, and no cell outside the viewport changes.
pub vga_write_string-Confined :
    (str : List ℕ) (s : Screen)
    → IsOnScreen s
    → s.vp_top ≤ s.row
    → s.row ≤ s.vp_bot
    → Confined s (vga_write_string s str)
vga_write_string-Confined [] s v a b =
    unfold vga_write_string in
    record {
      on_screen = v;
      inside = a;
      within = b;
      same_top = refl;
      same_bot = refl;
      same = λ i o. refl;
    }
vga_write_string-Confined (c ∷ str) s v a b = elim (Bool-cases (c == 0)) [
  | inl e ↦
      let q : vga_write_string s (c ∷ str) ≡ s = unfold vga_write_string in ground (arith, e) in
      rw q (record {
        on_screen = v;
        inside = a;
        within = b;
        same_top = refl;
        same_bot = refl;
        same = λ i o. refl;
      })
  | inr e ↦
      let q : vga_write_string s (c ∷ str) ≡ vga_write_string (vga_putchar s c) str =
        unfold vga_write_string in ground (arith, e) in
      let p : Confined s (vga_putchar s c) = vga_putchar-Confined s c v a b in
      rw q (
        Confined-trans p
          (vga_write_string-Confined str (vga_putchar s c) p.on_screen p.inside p.within))
]
