-- ===== src/Shell/Line/Typing.antt =====
-- kernel/shell.c: what `shell_read_line` returns.
use fur_os.Prelude.{
  ℕ, zero, ◌-◌, suc, ◌+◌, ◌<◌, ◌≡◌, refl, sym, ◌∙◌, true, false, ◌&&◌, ◌||◌, some, List, [], ◌∷◌,
  ◌++◌, take, length, ltb, ◌==◌, Bool-cases, inl, inr, arith, length-append, length-take,
}
use fur_os.Shell.Numbers.{is_printable}
use fur_os.Shell.Line.{on_char, read_line_from, shell_read_line}
use fur_os.Vga.{Screen, vga_putchar, vga_write_string}
use mathlib.Core.List.{append-nil, append_assoc}

-- Every byte is printable.
unfoldable pub IsText : List ℕ → Type 0
IsText [] = Unit {0}
IsText (c ∷ s) = (is_printable c ≡ true) × IsText s

append-IsText : (s t : List ℕ) → IsText s → IsText t → IsText (s ++ t)
unfolding IsText
append-IsText [] t h k = k
append-IsText (c ∷ s) t h k = (h.0, append-IsText s t h.1 k)

take-IsText : (n : ℕ) (s : List ℕ) → IsText s → IsText (take n s)
unfolding IsText
take-IsText zero s h = tt
take-IsText (suc n) [] h = tt
take-IsText (suc n) (c ∷ s) h = (h.0, take-IsText n s h.1)

on_char-fits :
    (max_len c : ℕ) (buf : List ℕ) (s : Screen)
    → IsText buf
    → length buf < max_len
    → IsText (on_char max_len c buf s).0 × length (on_char max_len c buf s).0 < max_len
unfolding on_char
on_char-fits max_len c buf s t h = elim (Bool-cases (c == 8)) [
  | inl y ↦ rw y (elim (Bool-cases (ltb 0 (length buf))) [
    | inl l ↦
        rw l (take-IsText (length buf - 1) buf t, omega (arith, length-take (length buf - 1) buf))
    | inr n ↦ rw n (t, h)
  ])
  | inr n ↦ rw n (elim (Bool-cases (is_printable c && ltb (length buf + 1) max_len)) [
    | inl l ↦ rw l (
      append-IsText buf (c ∷ []) t (unfold IsText in (ground (arith, l), tt)),
      ground (arith, l, length-append buf (c ∷ [])),
    )
    | inr m ↦ rw m (t, h)
  ])
]

read_line_from-fits :
    (max_len : ℕ) (buf : List ℕ) (s : Screen) (input line : List ℕ) (t : Screen) (rest : List ℕ)
    → IsText buf
    → length buf < max_len
    → read_line_from max_len buf s input ≡ some (line, t, rest)
    → IsText line × length line < max_len
unfolding read_line_from
read_line_from-fits max_len buf s [] line t rest v h e = absurd (cc e)
read_line_from-fits max_len buf s (c ∷ input) line t rest v h e =
    elim (Bool-cases (c == 10 || c == 13)) [
      | inl y ↦ let q : line ≡ buf = ground (arith, e, y) in rw q (v, h)
      | inr n ↦
          let fit = on_char-fits max_len c buf s v h in
          read_line_from-fits max_len (on_char max_len c buf s).0 (on_char max_len c buf s).1 input
            line t rest fit.0 fit.1 (ground (arith, e, n))
    ]

-- For a buffer of at least one byte: the line that `shell_read_line` returns is shorter than the
-- buffer, so the terminator fits, and every byte of it is printable.
shell_read_line-fits :
    (max_len : ℕ) (s : Screen) (input line : List ℕ) (t : Screen) (rest : List ℕ)
    → 0 < max_len
    → shell_read_line max_len s input ≡ some (line, t, rest)
    → IsText line × length line < max_len
unfolding shell_read_line
shell_read_line-fits max_len s input line t rest h e =
    read_line_from-fits max_len [] s input line t rest (unfold IsText in tt) h e

printable-on_char :
    (max_len c : ℕ) (buf : List ℕ) (s : Screen)
    → is_printable c ≡ true
    → length buf + 1 < max_len
    → on_char max_len c buf s ≡ (buf ++ c ∷ [], vga_putchar s c)
unfolding on_char
printable-on_char max_len c buf s p h = ground (arith, p)

reads_on :
    (max_len c : ℕ) (buf : List ℕ) (s : Screen) (input : List ℕ)
    → (c == 10 || c == 13) ≡ false
    → read_line_from max_len buf s (c ∷ input)
      ≡ read_line_from max_len (on_char max_len c buf s).0 (on_char max_len c buf s).1 input
unfolding read_line_from
reads_on max_len c buf s input h = ground (arith, h)

writes_on :
    (s : Screen) (c : ℕ) (text : List ℕ)
    → (c == 0) ≡ false
    → vga_write_string s (c ∷ text) ≡ vga_write_string (vga_putchar s c) text
unfolding vga_write_string
writes_on s c text h = ground (arith, h)

typed :
    (max_len : ℕ) (text buf : List ℕ) (s : Screen) (rest : List ℕ)
    → IsText text
    → length buf + length text < max_len
    → read_line_from max_len buf s (text ++ 10 ∷ rest)
      ≡ some (buf ++ text, vga_putchar (vga_write_string s text) 10, rest)
unfolding IsText
typed max_len [] buf s rest v h =
    rw (append-nil buf) (unfold read_line_from vga_write_string in refl)
typed max_len (c ∷ text) buf s rest v h =
    let e : on_char max_len c buf s ≡ (buf ++ c ∷ [], vga_putchar s c) =
      printable-on_char max_len c buf s v.0 (omega arith) in
    let ih =
      typed max_len text (buf ++ c ∷ []) (vga_putchar s c) rest v.1
        (omega (arith, length-append buf (c ∷ []))) in
    let a : (c == 10 || c == 13) ≡ false = ground (arith, v.0) in
    let b : (c == 0) ≡ false = ground (arith, v.0) in
    let go : read_line_from max_len buf s (c ∷ (text ++ 10 ∷ rest))
        ≡ some (
          (buf ++ c ∷ []) ++ text,
          vga_putchar (vga_write_string (vga_putchar s c) text) 10,
          rest,
        ) =
      reads_on max_len c buf s (text ++ 10 ∷ rest) a ∙ rw e ih in
    rw (writes_on s c text b, sym (append_assoc buf (c ∷ []) text)) go

-- For printable text shorter than the buffer: typed and ended with Enter, it is the line that
-- `shell_read_line` returns, the screen shows what writing it and a new line shows, and the input
-- after Enter is left.
shell_read_line_typed :
    (max_len : ℕ) (text : List ℕ) (s : Screen) (rest : List ℕ)
    → IsText text
    → length text < max_len
    → shell_read_line max_len s (text ++ 10 ∷ rest)
      ≡ some (text, vga_putchar (vga_write_string s text) 10, rest)
unfolding shell_read_line
shell_read_line_typed max_len text s rest v h = typed max_len text [] s rest v (omega arith)
