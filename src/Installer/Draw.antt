-- ===== src/Installer/Draw.antt =====
-- kernel/installer.c: numbers as text, and what the screens are drawn from.
use fur_os.Prelude.{
  ℕ, zero, suc, ◌+◌, ◌-◌, ◌*◌, ◌/◌, ◌%◌, ◌^◌, true, false, List, [], ◌∷◌, ◌++◌, codes, String,
  length, take, ltb, ◌==◌, if◌then◌else◌,
}
use fur_os.KString.{byte_at}
use fur_os.Vga.{Screen, vga_put_at, vga_write_str_at, vga_fill_rect}

-- The loop over `v /= 10`, for at most so many digits, put before those that are there.
unfoldable pub digits : ℕ → ℕ → List ℕ → List ℕ
digits zero v acc = acc
digits (suc k) v acc = elim (v == 0) [
  | true ↦ acc
  | false ↦ digits k (v / 10) ((48 + v % 10) ∷ acc)
]

-- The text in a buffer of `bufsz` bytes.
unfoldable pub u32_to_str : ℕ → ℕ → List ℕ
unfolding digits
u32_to_str v bufsz = if v == 0 then 48 ∷ [] else take (bufsz - 1) (digits 11 v [])

abbrev hex : ℕ → ℕ
hex x = byte_at (codes "0123456789ABCDEF") (x % 16)

unfoldable pub hex16_to_str : ℕ → List ℕ
hex16_to_str v = codes "0x" ++ hex (v / 2 ^ 12) ∷ hex (v / 2 ^ 8) ∷ hex (v / 2 ^ 4) ∷ hex v ∷ []

unfoldable pub hex32_to_str : ℕ → List ℕ
hex32_to_str v =
    codes "0x"
    ++ hex (v / 2 ^ 28)
      ∷ hex (v / 2 ^ 24)
      ∷ hex (v / 2 ^ 20)
      ∷ hex (v / 2 ^ 16)
      ∷ hex (v / 2 ^ 12)
      ∷ hex (v / 2 ^ 8)
      ∷ hex (v / 2 ^ 4)
      ∷ hex v
      ∷ []

-- For texts that a buffer of `dstsz` bytes holds.
unfoldable pub str_cat : List ℕ → List ℕ → ℕ → List ℕ
str_cat dst src dstsz = dst ++ take (dstsz - 1 - length dst) src

-- The colours, and the rows of the screen.
abbrev pub ch_fg : ℕ
ch_fg = 15

abbrev pub ch_bg : ℕ
ch_bg = 5

abbrev pub cc_fg : ℕ
cc_fg = 7

abbrev pub cc_bg : ℕ
cc_bg = 0

abbrev pub cb_fg : ℕ
cb_fg = 15

abbrev pub cb_bg : ℕ
cb_bg = 8

abbrev pub cs_fg : ℕ
cs_fg = 15

abbrev pub cs_bg : ℕ
cs_bg = 13

abbrev pub ci_fg : ℕ
ci_fg = 15

abbrev pub ci_bg : ℕ
ci_bg = 8

abbrev pub cw_fg : ℕ
cw_fg = 12

abbrev pub cg_fg : ℕ
cg_fg = 10

abbrev pub cx_fg : ℕ
cx_fg = 11

abbrev pub scr_w : ℕ
scr_w = 80

abbrev pub cont_top : ℕ
cont_top = 2

-- Calls on the screen, one after another.
unfoldable pub draw : List (Screen → Screen) → Screen → Screen
draw [] s = s
draw (f ∷ fs) s = draw fs (f s)

abbrev pub bytes_at : ℕ → ℕ → List ℕ → ℕ → ℕ → Screen → Screen
bytes_at x y str fg bg s = vga_write_str_at s x y str fg bg

-- A text on the black of the content area.
abbrev pub text_at : ℕ → ℕ → String → ℕ → Screen → Screen
text_at x y str fg = bytes_at x y (codes str) fg cc_bg

abbrev pub fill_at : ℕ → ℕ → ℕ → ℕ → ℕ → ℕ → ℕ → Screen → Screen
fill_at x y w h c fg bg s = vga_fill_rect s x y w h c fg bg

abbrev pub put_at : ℕ → ℕ → ℕ → ℕ → ℕ → Screen → Screen
put_at x y c fg bg s = vga_put_at s x y c fg bg

unfoldable pub draw_header : ℕ → ℕ → String → Screen → Screen
unfolding draw u32_to_str str_cat
draw_header step total name =
    let a = str_cat (str_cat [] (codes "Step ") 48) (u32_to_str step 4) 48 in
    let b = str_cat (str_cat a (codes "/") 48) (u32_to_str total 4) 48 in
    let right = str_cat (str_cat b (codes ": ") 48) (codes name) 48 in
    let i = scr_w - length right - 2 in
    draw (
      fill_at 0 0 scr_w 1 32 ch_fg ch_bg
      ∷ fill_at 0 1 scr_w 1 32 cb_fg cb_bg
      ∷ bytes_at 2 0 (codes " FurOS 1.0 Installer ") ch_fg ch_bg
      ∷ bytes_at (if ltb i 25 then 25 else i) 0 right ch_fg ch_bg
      ∷ [])

unfoldable pub clear_content : Screen → Screen
clear_content = fill_at 0 cont_top scr_w 19 32 cc_fg cc_bg

unfoldable pub draw_bottom : List ℕ → Screen → Screen
unfolding draw
draw_bottom hint = draw (
    fill_at 0 21 scr_w 1 0xC4 cb_fg cb_bg
    ∷ fill_at 0 22 scr_w 1 32 cb_fg cb_bg
    ∷ fill_at 0 24 scr_w 1 32 cb_fg cb_bg
    ∷ bytes_at 2 22 hint cb_fg cb_bg
    ∷ bytes_at 2 24
        (codes "FurOS Installer 1.0  " ++ 0xB3 ∷ codes "  Based on Debian GNU/Linux 12 Bookworm")
        cb_fg cb_bg
    ∷ [])

-- The same character in so many columns from `x` on.
unfoldable pub across : ℕ → ℕ → ℕ → ℕ → ℕ → ℕ → Screen → Screen
across zero x y c fg bg s = s
across (suc k) x y c fg bg s = across k (suc x) y c fg bg (vga_put_at s x y c fg bg)

abbrev edge : ℕ → ℕ → ℕ → ℕ → ℕ → Screen → Screen
edge left right x y w s =
    put_at (x + w - 1) y right cb_fg cb_bg
      (across (w - 2) (x + 1) y 0xC4 cb_fg cb_bg (put_at x y left cb_fg cb_bg s))

unfoldable pub box_top : ℕ → ℕ → ℕ → Screen → Screen
unfolding across
box_top x y w = edge 0xDA 0xBF x y w

unfoldable pub box_bot : ℕ → ℕ → ℕ → Screen → Screen
unfolding across
box_bot x y w = edge 0xC0 0xD9 x y w

-- The characters of a text, each at its place.
unfoldable pub put_text : ℕ → ℕ → List ℕ → ℕ → ℕ → Screen → Screen
put_text x y [] fg bg s = s
put_text x y (c ∷ rest) fg bg s = put_text (suc x) y rest fg bg (vga_put_at s x y c fg bg)

unfoldable pub box_row : ℕ → ℕ → ℕ → List ℕ → ℕ → ℕ → Screen → Screen
unfolding draw put_text
box_row x y w txt fg bg = draw (
    put_at x y 0xB3 cb_fg cb_bg
    ∷ fill_at (x + 1) y (w - 2) 1 32 fg bg
    ∷ put_text (x + 1) y (take (w - 2) txt) fg bg
    ∷ put_at (x + w - 1) y 0xB3 cb_fg cb_bg
    ∷ [])

unfoldable pub draw_progress : ℕ → ℕ → Screen → Screen
unfolding draw across u32_to_str str_cat
draw_progress y pct =
    let filled = pct * 62 / 100 in
    draw (
      text_at 2 y "Progress [" cc_fg
      ∷ across filled 12 y 0xDB cg_fg cc_bg
      ∷ across (62 - filled) (12 + filled) y 0xB2 cb_fg cc_bg
      ∷ put_at 74 y 93 cc_fg cc_bg
      ∷ bytes_at 76 y (str_cat (u32_to_str pct 8) (codes "%") 8) cg_fg cc_bg
      ∷ [])

unfoldable pub mark_step : ℕ → List ℕ → ℕ → Screen → Screen
unfolding draw
mark_step y label col =
    let mark = if col == cg_fg then 42 else if col == cx_fg then 126 else 32 in
    draw (
      fill_at 0 y scr_w 1 32 cc_fg cc_bg
      ∷ bytes_at 2 y (32 ∷ 91 ∷ mark ∷ 93 ∷ 32 ∷ take (scr_w - 6) label) col cc_bg
      ∷ [])
