-- ===== src/Fs/Files.antt =====
-- kernel/fs.c: `fs_list`, `fs_read_file`, `fs_write_file`, `fs_remove`.
pub mod Keeps
pub mod Contents
use fur_os.Prelude.{
  ℕ, zero, suc, ◌+◌, ◌-◌, ◌^◌, Bool, true, false, ◌&&◌, not, Option, none, some, List, [], ◌∷◌,
  ◌++◌, set, ltb, leb, ◌==◌, if◌then◌else◌,
}
use fur_os.KString.{kmemcpy}
use fur_os.Fs.Node.{Node, Nodes, node_at, is_node, Status, ok, fail, fs_max_nodes, fs_max_file_size}
use fur_os.Fs.Find.{scan}
use fur_os.Fs.Resolve.{fs_resolve}
use fur_os.Fs.Create.{fs_touch}

-- The test of the loop of `fs_list`.
abbrev pub is_entry : Nodes → ℕ → ℕ → Bool
is_entry t dir i = (node_at t i).used && ((node_at t i).parent == dir && not (i == dir))

-- That loop from index `i` on; `out` holds the entries that were stored, in order.
unfoldable pub list_from : ℕ → ℕ → Nodes → ℕ → ℕ → ℕ → List ℕ → ℕ × List ℕ
list_from zero i t dir max_out count out = (count, out)
list_from (suc k) i t dir max_out count out =
    list_from k (suc i) t dir max_out (if is_entry t dir i then count + 1 else count)
      (if is_entry t dir i && ltb count max_out then out ++ i ∷ [] else out)

-- The count and the stored entries.
unfoldable pub fs_list : Nodes → ℕ → ℕ → Option (ℕ × List ℕ)
fs_list t dir max_out =
    if is_node t dir && (node_at t dir).is_dir
    then (let (count, out) = list_from fs_max_nodes 0 t dir max_out 0 [] in
        if ltb (2 ^ 31 - 1) count then none else some (count, out))
    else none

-- The array that `*data` points to, and `*size`.
unfoldable pub fs_read_file : Nodes → ℕ → List ℕ → Option (List ℕ × ℕ)
fs_read_file t cwd path = elim (fs_resolve t cwd path) [
  | none ↦ none
  | some node ↦
      if (node_at t node).is_dir
      then none
      else some ((node_at t node).contents, (node_at t node).size)
]

-- The size that is stored.
abbrev pub clamp_size : ℕ → ℕ
clamp_size size = if leb fs_max_file_size size then fs_max_file_size - 1 else size

-- A file after the last statements of `fs_write_file`, with `size` clamped.
abbrev pub write_node : Node → List ℕ → ℕ → Node
write_node n source size = record n {
  contents = set (if ltb 0 size then kmemcpy n.contents source size else n.contents) size 0;
  size = size;
}

-- `node = fs_resolve(cwd, path)`, and where that fails, once more after `fs_touch`.
unfoldable pub open_for_write : Nodes → ℕ → List ℕ → Option ℕ × Nodes
open_for_write t cwd path = elim (fs_resolve t cwd path) [
  | some node ↦ (some node, t)
  | none ↦
      let (status, t') = fs_touch t cwd path in
      elim status [ fail ↦ (none, t') | ok ↦ (fs_resolve t' cwd path, t') ]
]

-- `source` is the source's `data`, not null.
unfoldable pub fs_write_file : Nodes → ℕ → List ℕ → List ℕ → ℕ → Status × Nodes
fs_write_file t cwd path source size =
    let (found, t') = open_for_write t cwd path in
    elim found [
      | none ↦ (fail, t')
      | some node ↦
          if (node_at t' node).is_dir
          then (fail, t')
          else (ok, set t' node (write_node (node_at t' node) source (clamp_size size)))
    ]

abbrev pub has_parent : Nodes → ℕ → ℕ → Bool
has_parent t node i = (node_at t i).used && (node_at t i).parent == node

-- Some used node has `node` for its parent.
unfoldable pub is_occupied : Nodes → ℕ → Bool
is_occupied t node = elim (scan fs_max_nodes 0 (has_parent t node)) [ none ↦ false | some i ↦ true ]

unfoldable pub fs_remove : Nodes → ℕ → List ℕ → Status × Nodes
fs_remove t cwd path = elim (fs_resolve t cwd path) [
  | none ↦ (fail, t)
  | some node ↦
      if node == 0
      then (fail, t)
      else if (node_at t node).is_dir && is_occupied t node
      then (fail, t)
      else (ok, set t node (record (node_at t node) { used = false }))
]
