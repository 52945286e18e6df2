-- ===== src/Tests/Display.antt =====
-- kernel/vga.c at the screen that is empty.
use fur_os.Prelude.{ℕ, arith, codes, replicate, length-replicate}
use fur_os.Vga.{Screen, vga_write_string}
use fur_os.Vga.Bounds.{IsOnScreen}
use fur_os.Vga.Viewport.{Confined, vga_write_string-Confined}

-- The cursor at the start of the given line, above a viewport from line 2 on or in it.
abbrev at_line : ℕ → Screen
at_line r = record {
  row = r;
  column = 0;
  color = 7;
  vp_top = 2;
  vp_bot = 24;
  memory = replicate 2000 0;
}

inside : IsOnScreen (at_line 3)
inside = record {
  row = omega arith;
  column = omega arith;
  top = omega arith;
  bottom = omega arith;
  memory = length-replicate {A = ℕ} 2000 0;
}

vga_write_string-Confined_example :
    Confined (at_line 3) (vga_write_string (at_line 3) (codes "hi\n"))
vga_write_string-Confined_example =
    vga_write_string-Confined (codes "hi\n") (at_line 3) inside (omega arith) (omega arith)
