-- ===== src/Shell/Access.antt =====
-- kernel/shell.c: who may create an entry where.
pub mod Parent
use fur_os.Prelude.{
  ℕ, ◌+◌, Bool, true, false, Option, none, some, List, take, leb, ◌==◌, if◌then◌else◌, suc,
}
use fur_os.KString.{byte_at, kstrlen}
use fur_os.Fs.Node.{fs_get_root, fs_is_dir}
use fur_os.Fs.Resolve.{fs_resolve, last_slash}
use fur_os.Fs.Access.{fs_check_access, fs_access_write, fs_access_exec}
use fur_os.Shell.State.{Shell, shell_println}
use fur_os.Shell.Numbers.{shell_uid_root}

-- `true` where the source returns 0.
unfoldable pub require_root : Shell → ℕ → Bool × Shell
require_root s uid =
    if uid == shell_uid_root
    then (true, s)
    else (false, shell_println "permission denied (requires root, use sudo)" s)

-- `*parent_out`, or `none` where the source returns -1.
unfoldable pub resolve_parent_path : Shell → List ℕ → Option ℕ
resolve_parent_path s path = if kstrlen path == 0 then none else elim (last_slash 0 none path) [
  | none ↦ some s.shell_cwd
  | some slash ↦
      if suc slash == kstrlen path
      then none
      else if slash == 0
      then some fs_get_root
      else if leb 128 slash
      then none
      else elim (fs_resolve s.nodes s.shell_cwd (take slash path)) [
        | none ↦ none
        | some parent ↦ if fs_is_dir s.nodes parent then some parent else none
      ]
]

-- `true` where the source returns 0.
unfoldable pub ensure_parent_writable : Shell → List ℕ → ℕ → Bool × Shell
unfolding resolve_parent_path
ensure_parent_writable s path uid = elim (resolve_parent_path s path) [
  | none ↦ (false, shell_println "path: invalid parent" s)
  | some parent ↦
      if fs_check_access s.nodes parent uid (fs_access_write + fs_access_exec)
      then (true, s)
      else (false, shell_println "permission denied" s)
]
