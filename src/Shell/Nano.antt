-- ===== src/Shell/Nano.antt =====
-- kernel/shell.c: `nano`.
pub mod Bounds
use fur_os.Prelude.{
  ℕ, zero, suc, ◌+◌, ◌-◌, Bool, true, false, ◌&&◌, ◌||◌, not, Option, none, some, List, [], ◌∷◌,
  ◌++◌, codes, length, take, ltb, leb, ◌==◌, if◌then◌else◌,
}
use fur_os.Fs.Node.{Nodes, Status, ok, fail, fs_max_file_size}
use fur_os.Fs.Create.{fs_touch}
use fur_os.Fs.Files.{fs_read_file, fs_write_file}
use fur_os.Vga.{vga_putchar, vga_backspace}
use fur_os.Shell.State.{Shell, say, line_end, shell_println}
use fur_os.Shell.Numbers.{is_printable}
use fur_os.Shell.Packages.{arg}

-- `buffer` holds the first `len` bytes; the byte behind them is the terminator.
pub record Editor : Type 0 where
  pub shell : Shell
  pub buffer : List ℕ
  pub dirty : Bool

-- `fs_write_file(shell_cwd, argv[1], buffer, len)`, whose result is not looked at.
unfoldable pub save_buffer : List ℕ → Editor → Shell
save_buffer path e = record (e.shell) {
  nodes = (fs_write_file e.shell.nodes e.shell.shell_cwd path e.buffer (length e.buffer)).1;
}

-- A byte that goes to the buffer and to the screen, if there is room.
unfoldable pub type_char : ℕ → Editor → Editor
type_char c e =
    if ltb (length e.buffer + 1) fs_max_file_size
    then record {
      shell = record (e.shell) { screen = vga_putchar e.shell.screen c };
      buffer = e.buffer ++ c ∷ [];
      dirty = true;
    }
    else e

unfoldable pub erase_char : Editor → Editor
erase_char e =
    if ltb 0 (length e.buffer)
    then record {
      shell = record (e.shell) { screen = vga_backspace e.shell.screen };
      buffer = take (length e.buffer - 1) e.buffer;
      dirty = true;
    }
    else e

-- The body of the loop for a character other than Ctrl+X.
unfoldable pub on_edit : List ℕ → ℕ → Editor → Editor
unfolding save_buffer type_char erase_char
on_edit path c e =
    if c == 19
    then record e { shell = shell_println "\n[saved]" (save_buffer path e); dirty = false }
    else if c == 8
    then erase_char e
    else if c == 10 || c == 13
    then type_char 10 e
    else if is_printable c
    then type_char c e
    else e

-- The branch of Ctrl+X.
unfoldable pub leave_nano : List ℕ → Editor → Shell
unfolding save_buffer
leave_nano path e = shell_println "\n[exit nano]" (if e.dirty then save_buffer path e else e.shell)

-- The loop over the characters that `keyboard_getchar` returns: the shell and the input that is
-- left, or `none` while it waits for Ctrl+X.
unfoldable pub nano_loop : List ℕ → Editor → List ℕ → Option (Shell × List ℕ)
unfolding on_edit leave_nano
nano_loop path e [] = none
nano_loop path e (c ∷ input) = elim (c == 24) [
  | true ↦ some (leave_nano path e, input)
  | false ↦ nano_loop path (on_edit path c e) input
]

-- The editor at the start: the bytes of the file are the first of its array.
unfoldable pub open_nano : Shell → List ℕ → ℕ → Editor
open_nano s contents size =
    let text = take (if leb fs_max_file_size size then fs_max_file_size - 1 else size) contents in
    record {
      shell =
          say
            (codes "--- FurNano ---\n"
              ∷ codes "Ctrl+S save, Ctrl+X save+exit\n"
              ∷ codes "---------------\n"
              ∷ text
              ∷ [])
            s;
      buffer = text;
      dirty = false;
    }

unfoldable pub cmd_nano : Shell → List (List ℕ) → List ℕ → Option (Shell × List ℕ)
unfolding open_nano nano_loop
cmd_nano s argv input =
    if ltb (length argv) 2
    then some (shell_println "nano: usage nano <file>" s, input)
    else (let touched = fs_touch s.nodes s.shell_cwd (arg argv 1) in
        let t = record s { nodes = touched.1 } in
        elim (touched.0) [
          | fail ↦ some (shell_println "nano: unable to open file" t, input)
          | ok ↦ elim (fs_read_file t.nodes t.shell_cwd (arg argv 1)) [
            | none ↦ some (shell_println "nano: unable to open file" t, input)
            | some (contents, size) ↦ nano_loop (arg argv 1) (open_nano t contents size) input
          ]
        ])
