-- ===== src/Shell/Line.antt =====
-- kernel/shell.c: reading a line and splitting it into words.
pub mod Words
pub mod Typing
use fur_os.Prelude.{
  ℕ, zero, suc, ◌+◌, ◌-◌, Bool, true, false, ◌&&◌, ◌||◌, not, Option, none, some, List, [], ◌∷◌,
  ◌++◌, length, take, drop, ltb, ◌==◌, if◌then◌else◌,
}
use fur_os.KString.{byte_at}
use fur_os.Vga.{Screen, vga_putchar, vga_backspace}
use fur_os.Shell.Numbers.{is_space, is_printable}

-- What a key other than Enter makes of the first `len` bytes of `buf` and of the screen.
unfoldable pub on_char : ℕ → ℕ → List ℕ → Screen → List ℕ × Screen
on_char max_len c buf s =
    if c == 8
    then (if ltb 0 (length buf) then (take (length buf - 1) buf, vga_backspace s) else (buf, s))
    else if is_printable c && ltb (length buf + 1) max_len
    then (buf ++ c ∷ [], vga_putchar s c)
    else (buf, s)

-- `input` is what the calls of `keyboard_getchar` return, in their order; the result is the line,
-- the screen and the input that is left, or `none` while the loop still waits for Enter.
unfoldable pub read_line_from : ℕ → List ℕ → Screen → List ℕ → Option (List ℕ × Screen × List ℕ)
unfolding on_char
read_line_from max_len buf s [] = none
read_line_from max_len buf s (c ∷ input) = elim (c == 10 || c == 13) [
  | true ↦ some (buf, vga_putchar s 10, input)
  | false ↦ read_line_from max_len (on_char max_len c buf s).0 (on_char max_len c buf s).1 input
]

unfoldable pub shell_read_line : ℕ → Screen → List ℕ → Option (List ℕ × Screen × List ℕ)
unfolding read_line_from
shell_read_line max_len s input = read_line_from max_len [] s input

-- `while (is_space(*p)) p++`
unfoldable pub skip_spaces : List ℕ → List ℕ
skip_spaces [] = []
skip_spaces (c ∷ p) = if is_space c then skip_spaces p else c ∷ p

-- The bytes the word at `p` has when its blank is overwritten with the terminator.
unfoldable pub word_at : List ℕ → List ℕ
word_at [] = []
word_at (c ∷ p) = if not (c == 0) && not (is_space c) then c ∷ word_at p else []

-- `while (*p != '\0' && !is_space(*p)) p++`
unfoldable pub skip_word : List ℕ → List ℕ
skip_word [] = []
skip_word (c ∷ p) = if not (c == 0) && not (is_space c) then skip_word p else c ∷ p

-- `argv[0]` to `argv[argc - 1]`, each argument as its bytes; the number is `max_argv - argc`.
unfoldable pub shell_parse : List ℕ → ℕ → List (List ℕ)
unfolding skip_spaces word_at skip_word
shell_parse line zero = []
shell_parse line (suc room) =
    let p = skip_spaces line in
    let q = skip_word p in
    let rest = shell_parse (drop 1 q) room in
    if byte_at line 0 == 0
    then []
    else if byte_at p 0 == 0
    then []
    else word_at p ∷ (if byte_at q 0 == 0 then [] else rest)
