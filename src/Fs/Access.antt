-- ===== src/Fs/Access.antt =====
-- kernel/fs.c: owners, modes and `fs_check_access`.
pub mod Rights
use Prim.Native.Nat.{bit_and}
use fur_os.Prelude.{ℕ, ◌/◌, ◌%◌, Bool, true, false, Option, none, some, set, ◌==◌, if◌then◌else◌}
use fur_os.Fs.Node.{Nodes, node_at, is_node, mode_bits, Status, ok, fail}

abbrev pub fs_access_read : ℕ
fs_access_read = 4

abbrev pub fs_access_write : ℕ
fs_access_write = 2

abbrev pub fs_access_exec : ℕ
fs_access_exec = 1

unfoldable pub fs_get_owner : Nodes → ℕ → Option ℕ
fs_get_owner t node = if is_node t node then some (node_at t node).owner else none

unfoldable pub fs_get_mode : Nodes → ℕ → ℕ
fs_get_mode t node = if is_node t node then (node_at t node).mode else 0

unfoldable pub fs_set_owner : Nodes → ℕ → ℕ → Status × Nodes
fs_set_owner t node owner =
    if is_node t node
    then (ok, set t node (record (node_at t node) { owner = owner }))
    else (fail, t)

unfoldable pub fs_set_mode : Nodes → ℕ → ℕ → Status × Nodes
fs_set_mode t node mode =
    if is_node t node
    then (ok, set t node (record (node_at t node) { mode = mode_bits mode }))
    else (fail, t)

-- The three bits that a user has: the owner's, or those of the others.
abbrev pub allowed_bits : Nodes → ℕ → ℕ → ℕ
allowed_bits t node user =
    let mode = mode_bits (node_at t node).mode in
    if user == (node_at t node).owner then mode / 64 % 8 else mode % 8

unfoldable pub fs_check_access : Nodes → ℕ → ℕ → ℕ → Bool
fs_check_access t node user mask =
    if is_node t node
    then (if mask == 0
        then true
        else if user == 0
        then true
        else bit_and (allowed_bits t node user) mask == mask)
    else false
