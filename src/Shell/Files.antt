-- ===== src/Shell/Files.antt =====
-- kernel/shell.c: the commands on files. `argc` is the length of `argv`.
pub mod Rights
pub mod Keeps
use fur_os.Prelude.{
  ℕ, zero, suc, ◌+◌, ◌-◌, Bool, true, false, ◌&&◌, not, Option, none, some, List, [], ◌∷◌, ◌++◌,
  codes, length, take, drop, ltb, leb, ◌==◌, if◌then◌else◌,
}
use fur_os.KString.{byte_at, kstrlen}
use fur_os.Fs.Node.{
  Nodes, node_at, Status, ok, fail, zeros, fs_get_root, fs_is_dir, fs_get_name, fs_max_nodes,
  fs_max_file_size, fs_default_dir_mode, fs_default_file_mode,
}
use fur_os.Fs.Resolve.{fs_resolve}
use fur_os.Fs.Create.{fs_mkdir_as, fs_touch_as}
use fur_os.Fs.Files.{fs_list, fs_read_file, fs_write_file, fs_remove}
use fur_os.Fs.Access.{
  fs_check_access, fs_access_read, fs_access_write, fs_access_exec, fs_get_owner, fs_set_owner,
  fs_set_mode,
}
use fur_os.Fs.MakePath.{fs_make_path}
use fur_os.Shell.State.{Shell, say, line_end, shell_println}
use fur_os.Shell.Numbers.{shell_uid_root, parse_mode_octal, parse_uid}
use fur_os.Shell.Packages.{arg}
use fur_os.Shell.Access.{require_root, ensure_parent_writable}

-- The strings of the loop of `cmd_ls`.
unfoldable pub entry_lines : Nodes → List ℕ → List (List ℕ)
entry_lines t [] = []
entry_lines t (i ∷ rest) = elim (fs_get_name t i) [
  | none ↦ entry_lines t rest
  | some name ↦ name ∷ (if fs_is_dir t i then codes "/" else []) ∷ line_end ∷ entry_lines t rest
]

-- The end of `cmd_ls`, past its checks.
unfoldable pub list_entries : Shell → ℕ → Shell
unfolding entry_lines
list_entries s target = elim (fs_list s.nodes target fs_max_nodes) [
  | none ↦ shell_println "(empty)" s
  | some (count, entries) ↦
      if count == 0
      then shell_println "(empty)" s
      else say (entry_lines s.nodes (take count entries)) s
]

unfoldable pub cmd_ls : Shell → List (List ℕ) → ℕ → Shell
unfolding list_entries
cmd_ls s argv uid =
    elim (if ltb 1 (length argv)
      then fs_resolve s.nodes s.shell_cwd (arg argv 1)
      else some s.shell_cwd) [
        | none ↦ shell_println "ls: path not found" s
        | some target ↦
            if not (fs_is_dir s.nodes target)
            then shell_println "ls: not a directory" s
            else if not (fs_check_access s.nodes target uid (fs_access_read + fs_access_exec))
            then shell_println "ls: permission denied" s
            else list_entries s target
      ]

-- `char path[128]` holds zeros here before `fs_make_path` fills it.
unfoldable pub cmd_pwd : Shell → Shell
cmd_pwd s = elim (fs_make_path s.nodes s.shell_cwd (zeros 128) 128) [
  | none ↦ shell_println "/" s
  | some path ↦ say (path ∷ line_end ∷ []) s
]

unfoldable pub cmd_cd : Shell → List (List ℕ) → ℕ → Shell
cmd_cd s argv uid =
    if ltb (length argv) 2
    then record s { shell_cwd = fs_get_root }
    else elim (fs_resolve s.nodes s.shell_cwd (arg argv 1)) [
      | none ↦ shell_println "cd: directory not found" s
      | some target ↦
          if not (fs_is_dir s.nodes target)
          then shell_println "cd: directory not found" s
          else if not (fs_check_access s.nodes target uid fs_access_exec)
          then shell_println "cd: permission denied" s
          else record s { shell_cwd = target }
    ]

-- What a call of `fs.c` leaves; its failure is reported.
abbrev pub reported : Shell → Status × Nodes → List (List ℕ) → Shell
reported s result message = elim (result.0) [
  | ok ↦ record s { nodes = result.1 }
  | fail ↦ say message (record s { nodes = result.1 })
]

unfoldable pub cmd_mkdir : Shell → List (List ℕ) → ℕ → Shell
unfolding ensure_parent_writable
cmd_mkdir s argv uid =
    if ltb (length argv) 2
    then shell_println "mkdir: missing operand" s
    else elim (fs_resolve s.nodes s.shell_cwd (arg argv 1)) [
      | some existing ↦
          if fs_is_dir s.nodes existing then s else shell_println "mkdir: path exists as file" s
      | none ↦
          if (ensure_parent_writable s (arg argv 1) uid).0
          then reported s (fs_mkdir_as s.nodes s.shell_cwd (arg argv 1) uid fs_default_dir_mode)
              (codes "mkdir: failed" ∷ line_end ∷ [])
          else (ensure_parent_writable s (arg argv 1) uid).1
    ]

unfoldable pub cmd_touch : Shell → List (List ℕ) → ℕ → Shell
unfolding ensure_parent_writable
cmd_touch s argv uid =
    if ltb (length argv) 2
    then shell_println "touch: missing operand" s
    else elim (fs_resolve s.nodes s.shell_cwd (arg argv 1)) [
      | some node ↦
          if fs_is_dir s.nodes node
          then shell_println "touch: is a directory" s
          else if not (fs_check_access s.nodes node uid fs_access_write)
          then shell_println "touch: permission denied" s
          else s
      | none ↦
          if (ensure_parent_writable s (arg argv 1) uid).0
          then reported s (fs_touch_as s.nodes s.shell_cwd (arg argv 1) uid fs_default_file_mode)
              (codes "touch: failed" ∷ line_end ∷ [])
          else (ensure_parent_writable s (arg argv 1) uid).1
    ]

-- The strings of the end of `cmd_cat`, for the bytes of the file.
abbrev pub shown : List ℕ → ℕ → List (List ℕ)
shown contents size = contents ∷ (if byte_at contents (size - 1) == 10 then [] else line_end) ∷ []

unfoldable pub cmd_cat : Shell → List (List ℕ) → ℕ → Shell
cmd_cat s argv uid =
    if ltb (length argv) 2
    then shell_println "cat: missing operand" s
    else elim (fs_resolve s.nodes s.shell_cwd (arg argv 1)) [
      | none ↦ shell_println "cat: file not found" s
      | some node ↦
          if fs_is_dir s.nodes node
          then shell_println "cat: file not found" s
          else if not (fs_check_access s.nodes node uid fs_access_read)
          then shell_println "cat: permission denied" s
          else elim (fs_read_file s.nodes s.shell_cwd (arg argv 1)) [
            | none ↦ shell_println "cat: file not found" s
            | some (contents, size) ↦
                if size == 0 then shell_println "(empty file)" s else say (shown contents size) s
          ]
    ]

-- The loop of `cmd_write` over the arguments that are left: the first `pos` bytes of `buffer`.
unfoldable pub join_args : List (List ℕ) → List ℕ → List ℕ
join_args [] buffer = buffer
join_args (a ∷ rest) buffer =
    let next =
      join_args rest
        (buffer ++ (take (kstrlen a) a ++ elim rest [ [] ↦ [] | b ∷ r ↦ codes " " ])) in
    if leb fs_max_file_size (length buffer + kstrlen a + 2) then buffer else next

unfoldable pub cmd_write : Shell → List (List ℕ) → Shell
unfolding join_args
cmd_write s argv =
    if ltb (length argv) 3
    then shell_println "write: usage write <file> <text>" s
    else (let buffer = join_args (drop 2 argv) [] in
        reported s (fs_write_file s.nodes s.shell_cwd (arg argv 1) buffer (length buffer))
          (codes "write: failed" ∷ line_end ∷ []))

unfoldable pub cmd_rm : Shell → List (List ℕ) → Shell
cmd_rm s argv =
    if ltb (length argv) 2
    then shell_println "rm: missing operand" s
    else reported s (fs_remove s.nodes s.shell_cwd (arg argv 1))
        (codes "rm: failed (path missing or directory not empty)" ∷ line_end ∷ [])

-- `(uint16_t)fs_get_owner(node)`
abbrev pub owner_of : Nodes → ℕ → ℕ
owner_of t node = elim (fs_get_owner t node) [ none ↦ 65535 | some owner ↦ owner ]

unfoldable pub cmd_chmod : Shell → List (List ℕ) → ℕ → Shell
cmd_chmod s argv uid =
    if ltb (length argv) 3
    then shell_println "chmod: usage chmod <mode> <path>" s
    else elim (parse_mode_octal (arg argv 1)) [
      | none ↦ shell_println "chmod: invalid mode (use octal, e.g. 755)" s
      | some mode ↦ elim (fs_resolve s.nodes s.shell_cwd (arg argv 2)) [
        | none ↦ shell_println "chmod: path not found" s
        | some node ↦
            if not (uid == shell_uid_root) && not (owner_of s.nodes node == uid)
            then shell_println "chmod: permission denied" s
            else record s { nodes = (fs_set_mode s.nodes node mode).1 }
      ]
    ]

unfoldable pub cmd_chown : Shell → List (List ℕ) → ℕ → Shell
unfolding require_root
cmd_chown s argv uid =
    if ltb (length argv) 3
    then shell_println "chown: usage chown <user> <path>" s
    else if not (require_root s uid).0
    then (require_root s uid).1
    else elim (parse_uid (arg argv 1)) [
      | none ↦ shell_println "chown: invalid user (use root, debian, or numeric uid)" s
      | some owner ↦ elim (fs_resolve s.nodes s.shell_cwd (arg argv 2)) [
        | none ↦ shell_println "chown: path not found" s
        | some node ↦ record s { nodes = (fs_set_owner s.nodes node owner).1 }
      ]
    ]
