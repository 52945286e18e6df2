-- ===== src/Vga/View.antt =====
-- kernel/vga.c: the cursor stays in the viewport.
use fur_os.Prelude.{ℕ, ◌≤◌, ◌≡◌, List, arith}
use fur_os.Vga.{Screen, vga_clear, vga_putchar, vga_backspace, step_back, vga_write_string}
use fur_os.Vga.Bounds.{IsOnScreen, vga_backspace-IsOnScreen, vga_clear-IsOnScreen}
use fur_os.Vga.Viewport.{vga_putchar-Confined, vga_write_string-Confined}

-- The cursor is on the screen, on a line of the viewport.
pub record IsInView (s : Screen) : Type 0 where
  pub on_screen : IsOnScreen s
  pub top : s.vp_top ≤ s.row
  pub bottom : s.row ≤ s.vp_bot

pub vga_write_string-IsInView :
    (text : List ℕ) (s : Screen) → IsInView s → IsInView (vga_write_string s text)
vga_write_string-IsInView text s v =
    let c = vga_write_string-Confined text s v.on_screen v.top v.bottom in
    record { on_screen = c.on_screen; top = c.inside; bottom = c.within }

pub vga_putchar-IsInView : (c : ℕ) (s : Screen) → IsInView s → IsInView (vga_putchar s c)
vga_putchar-IsInView c s v =
    let k = vga_putchar-Confined s c v.on_screen v.top v.bottom in
    record { on_screen = k.on_screen; top = k.inside; bottom = k.within }

pub vga_clear-IsInView : (s : Screen) → IsInView s → IsInView (vga_clear s)
vga_clear-IsInView s v = record {
  on_screen = vga_clear-IsOnScreen s v.on_screen;
  top = unfold vga_clear in omega arith;
  bottom = unfold vga_clear in omega (arith, v.on_screen.top);
}

vga_backspace-top : (s : Screen) → (vga_backspace s).vp_top ≡ s.vp_top
unfolding vga_backspace step_back
vga_backspace-top s = ground arith

vga_backspace-bottom : (s : Screen) → IsInView s → (vga_backspace s).row ≤ (vga_backspace s).vp_bot
unfolding vga_backspace step_back
vga_backspace-bottom s v = ground (arith, v.on_screen.row, v.bottom)

pub vga_backspace-IsInView : (s : Screen) → IsInView s → IsInView (vga_backspace s)
vga_backspace-IsInView s v =
    let (on, top) = vga_backspace-IsOnScreen s v.on_screen v.top in
    record {
      on_screen = on;
      top = omega (arith, vga_backspace-top s, top);
      bottom = vga_backspace-bottom s v;
    }
