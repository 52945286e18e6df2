-- ===== src/Installer.antt =====
-- kernel/installer.c: what a key makes of a text field, and the lines of /etc/passwd and /etc/group.
pub mod Lines
pub mod Draw
pub mod Widgets
pub mod Wizard
pub mod Stages
pub mod Install
pub mod Run
use fur_os.Prelude.{
  ℕ, ◌+◌, ◌-◌, ◌%◌, Bool, true, false, ◌&&◌, ◌||◌, Option, none, some, List, [], ◌∷◌, ◌++◌, codes,
  length, take, ltb, leb, ◌==◌, if◌then◌else◌,
}

-- `(char)key`
abbrev is_print : ℕ → Bool
is_print key = leb 32 (key % 256) && ltb (key % 256) 127

-- The end of the loop of `run_input`: the first `len` bytes of the field after a key that neither
-- ends nor leaves it.
unfoldable pub input_key : ℕ → ℕ → List ℕ → List ℕ
input_key max_len key buf =
    if key == 8 && ltb 0 (length buf)
    then take (length buf - 1) buf
    else if is_print key && ltb (length buf) (max_len - 1)
    then buf ++ (key % 256) ∷ []
    else buf

-- The loop `while (src[j] && p < 120)`: the first `p` bytes of the line.
unfoldable pub append_upto : List ℕ → List ℕ → List ℕ
append_upto line [] = line
append_upto line (c ∷ src) = elim (c == 0 || leb 120 (length line)) [
  | true ↦ line
  | false ↦ append_upto (line ++ c ∷ []) src
]

abbrev pub root_line : List ℕ
root_line = codes "root:x:0:0:root:/root:/bin/sh\n"

abbrev pub user_rest : List ℕ
user_rest = codes ":x:1000:1000::/home/"

abbrev pub user_tail : List ℕ
user_tail = codes ":/bin/sh\n"

unfoldable pub passwd_line : List ℕ → List ℕ
unfolding append_upto
passwd_line username =
    append_upto (append_upto (append_upto (append_upto root_line username) user_rest) username)
      user_tail

unfoldable pub group_line : List ℕ → List ℕ
unfolding append_upto
group_line username =
    append_upto
      (append_upto
        (append_upto (append_upto [] (codes "root:x:0:\nsudo:x:27:")) username ++ 10 ∷ []) username)
      (codes ":x:1000:\n")
