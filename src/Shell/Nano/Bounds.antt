-- ===== src/Shell/Nano/Bounds.antt =====
-- kernel/shell.c: `nano` stays inside its buffer and keeps the invariant of the shell.
use fur_os.Prelude.{
  ap, ℕ, ◌+◌, ◌-◌, ◌≤◌, ◌<◌, ◌≡◌, ◌||◌, Option, some, List, [], ◌∷◌, arith, length, ltb, leb, ◌==◌,
  if◌then◌else◌, branch, option_branch, Bool-cases, inl, inr, length-append, length-take,
}
use fur_os.Fs.Node.{status_branch}
use fur_os.Fs.System.{Step, Step-IsFileSystem}
use fur_os.Fs.System.Directories.{fs_write_file-IsDirectory, fs_touch_as-IsDirectory}
use fur_os.Fs.Create.{fs_touch}
use fur_os.Fs.Files.{fs_read_file, fs_write_file}
use fur_os.Vga.View.{vga_putchar-IsInView, vga_backspace-IsInView}
use fur_os.Shell.State.{Shell, say}
use fur_os.Shell.Numbers.{is_printable}
use fur_os.Shell.Packages.{arg}
use fur_os.Shell.Files.Keeps.{IsShell, say-IsShell, nodes-IsShell}
use fur_os.Shell.Nano.{
  Editor, save_buffer, type_char, erase_char, on_edit, leave_nano, nano_loop, open_nano, cmd_nano,
}

-- The buffer has room for the terminator, and the shell is as its invariant says.
pub record IsEditor (e : Editor) : Type 0 where
  pub room : length e.buffer < 4096
  pub shell : IsShell e.shell

module _ (e : Editor) (v : IsEditor e) where
  save_buffer-IsShell : (path : List ℕ) → IsShell (save_buffer path e)
  unfolding save_buffer
  save_buffer-IsShell path =
      let s = e.shell in
      nodes-IsShell s v.shell (fs_write_file s.nodes s.shell_cwd path e.buffer (length e.buffer)).1
        (Step-IsFileSystem
          (Step.write s.nodes s.shell_cwd path e.buffer (length e.buffer) v.shell.cwd)
          v.shell.files)
        (fs_write_file-IsDirectory s.nodes s.shell_cwd s.shell_cwd path v.shell.files.files.tree
          v.shell.cwd e.buffer (length e.buffer))

  type_char-IsEditor : (c : ℕ) → IsEditor (type_char c e)
  unfolding type_char
  type_char-IsEditor c =
      branch IsEditor (ltb (length e.buffer + 1) 4096)
        (λ y. record {
          room = ground (arith, y, length-append e.buffer (c ∷ []));
          shell = record {
            files = v.shell.files;
            cwd = v.shell.cwd;
            screen = vga_putchar-IsInView c e.shell.screen v.shell.screen;
            uid = v.shell.uid;
          };
        })
        (λ n. v)

  erase_char-IsEditor : IsEditor (erase_char e)
  unfolding erase_char
  erase_char-IsEditor =
      branch IsEditor (ltb 0 (length e.buffer))
        (λ y. record {
          room = omega (arith, v.room, length-take (length e.buffer - 1) e.buffer);
          shell = record {
            files = v.shell.files;
            cwd = v.shell.cwd;
            screen = vga_backspace-IsInView e.shell.screen v.shell.screen;
            uid = v.shell.uid;
          };
        })
        (λ n. v)

  -- Every character but Ctrl+X keeps the text of `nano` shorter than its buffer of 4096 bytes, so
  -- that the terminator fits, and keeps the invariant of the shell, if both held before.
  pub on_edit-IsEditor : (path : List ℕ) (c : ℕ) → IsEditor (on_edit path c e)
  unfolding on_edit
  on_edit-IsEditor path c =
      branch IsEditor (c == 19)
        (λ y. record {
          room = v.room;
          shell = say-IsShell (save_buffer path e) (save_buffer-IsShell path) _;
        })
        (λ n.
          branch IsEditor (c == 8) (λ y. erase_char-IsEditor)
            (λ n.
              branch IsEditor (c == 10 || c == 13) (λ y. type_char-IsEditor 10)
                (λ n. branch IsEditor (is_printable c) (λ y. type_char-IsEditor c) (λ n. v))))

  leave_nano-IsShell : (path : List ℕ) → IsShell (leave_nano path e)
  unfolding leave_nano
  leave_nano-IsShell path =
      say-IsShell (if e.dirty then save_buffer path e else e.shell)
        (branch IsShell e.dirty (λ y. save_buffer-IsShell path) (λ n. v.shell)) _

nano_loop-IsShell :
    (path : List ℕ) (e : Editor) (input : List ℕ) (s : Shell) (rest : List ℕ)
    → IsEditor e
    → nano_loop path e input ≡ some (s, rest)
    → IsShell s × length rest ≤ length input
unfolding nano_loop
nano_loop-IsShell path e [] s rest v h = absurd (cc h)
nano_loop-IsShell path e (c ∷ input) s rest v h = elim (Bool-cases (c == 24)) [
  | inl y ↦
      let q : (leave_nano path e ≡ s) × (input ≡ rest) = ground (arith, h, y) in
      (rw (← q.0) (leave_nano-IsShell e v path), omega (arith, ap length q.1))
  | inr n ↦
      let ih =
        nano_loop-IsShell path (on_edit path c e) input s rest (on_edit-IsEditor e v path c)
          (ground (arith, h, n)) in
      (ih.0, omega (arith, ih.1))
]

-- If the editor has ended, the shell is as its invariant says, and no input has come back.
abbrev Ended : ℕ → Option (Shell × List ℕ) → Type 0
Ended size o = (s : Shell) (rest : List ℕ) → o ≡ some (s, rest) → IsShell s × length rest ≤ size

said-Ended :
    (s : Shell) (texts : List (List ℕ)) (input : List ℕ)
    → IsShell s
    → Ended (length input) (some (say texts s, input))
said-Ended s texts input v t rest h =
    let q : (say texts s ≡ t) × (input ≡ rest) = ground (arith, h) in
    (rw (← q.0) (say-IsShell s v texts), omega (arith, ap length q.1))

open_nano-IsEditor :
    (s : Shell) (contents : List ℕ) (size : ℕ) → IsShell s → IsEditor (open_nano s contents size)
unfolding open_nano
open_nano-IsEditor s contents size v = record {
  room = ground (arith, length-take (if leb 4096 size then 4095 else size) contents);
  shell = say-IsShell s v _;
}

touched-IsShell :
    (s : Shell) (path : List ℕ)
    → IsShell s
    → IsShell (record s { nodes = (fs_touch s.nodes s.shell_cwd path).1 })
unfolding fs_touch
touched-IsShell s path v =
    nodes-IsShell s v (fs_touch s.nodes s.shell_cwd path).1
      (Step-IsFileSystem (Step.touch s.nodes s.shell_cwd path 0 0o644 v.cwd (omega arith)) v.files)
      (fs_touch_as-IsDirectory s.nodes s.shell_cwd s.shell_cwd path v.files.files.tree v.cwd 0
        0o644)

-- When `nano` ends, the file system is well-formed, the working directory a directory of it, the
-- cursor in the viewport and the user id in 16 bits, if that was so before, and no more input is
-- left than there was.
cmd_nano-IsShell :
    (s : Shell) (argv : List (List ℕ)) (input : List ℕ) (t : Shell) (rest : List ℕ)
    → IsShell s
    → cmd_nano s argv input ≡ some (t, rest)
    → IsShell t × length rest ≤ length input
unfolding cmd_nano
cmd_nano-IsShell s argv input t rest v =
    let path : List ℕ = arg argv 1 in
    let u : Shell = record s { nodes = (fs_touch s.nodes s.shell_cwd path).1 } in
    let w : IsShell u = touched-IsShell s path v in
    branch (Ended (length input)) (ltb (length argv) 2) (λ y. said-Ended s _ input v)
      (λ n.
        status_branch (Ended (length input)) (fs_touch s.nodes s.shell_cwd path).0
          (λ e.
            option_branch (Ended (length input)) (fs_read_file u.nodes u.shell_cwd path)
              (λ e. said-Ended u _ input w)
              (λ r e t rest h.
                nano_loop-IsShell path (open_nano u r.0 r.1) input t rest
                  (open_nano-IsEditor u r.0 r.1 w) h))
          (λ e. said-Ended u _ input w))
      t rest
