-- ===== src/Fs/Create.antt =====
-- kernel/fs.c: `fs_mkdir_as`, `fs_mkdir`, `fs_touch_as`, `fs_touch`.
pub mod Outcome
pub mod New
pub mod Lookup
use fur_os.Prelude.{ℕ, true, false, none, some, List, set, if◌then◌else◌}
use fur_os.KString.{kstrcpy}
use fur_os.Fs.Node.{
  Node, Nodes, node_at, Status, ok, fail, mode_bits, fs_default_dir_mode, fs_default_file_mode,
}
use fur_os.Fs.Find.{alloc_node, find_child}
use fur_os.Fs.Resolve.{resolve_parent_and_leaf}

-- The fields that `fs_mkdir_as` sets in the node that it was given.
abbrev pub dir_node : Node → ℕ → List ℕ → ℕ → ℕ → Node
dir_node n parent leaf owner mode = record n {
  is_dir = true;
  parent = parent;
  owner = owner;
  mode = mode_bits mode;
  name = kstrcpy n.name leaf;
}

abbrev pub file_node : Node → ℕ → List ℕ → ℕ → ℕ → Node
file_node n parent leaf owner mode = record n {
  is_dir = false;
  parent = parent;
  owner = owner;
  mode = mode_bits mode;
  size = 0;
  contents = set n.contents 0 0;
  name = kstrcpy n.name leaf;
}

-- The rest of `fs_mkdir_as`, once the parent and the leaf are known.
unfoldable pub mkdir_at : Nodes → ℕ → List ℕ → ℕ → ℕ → Status × Nodes
mkdir_at t parent leaf owner mode = elim (find_child t parent leaf) [
  | some existing ↦ (if (node_at t existing).is_dir then ok else fail, t)
  | none ↦ elim (alloc_node t) [
    | none ↦ (fail, t)
    | some (node, t') ↦ (ok, set t' node (dir_node (node_at t' node) parent leaf owner mode))
  ]
]

unfoldable pub fs_mkdir_as : Nodes → ℕ → List ℕ → ℕ → ℕ → Status × Nodes
fs_mkdir_as t cwd path owner mode = elim (resolve_parent_and_leaf t cwd path) [
  | none ↦ (fail, t)
  | some (parent, leaf) ↦ mkdir_at t parent leaf owner mode
]

unfoldable pub fs_mkdir : Nodes → ℕ → List ℕ → Status × Nodes
fs_mkdir t cwd path = fs_mkdir_as t cwd path 0 fs_default_dir_mode

-- The rest of `fs_touch_as`, once the parent and the leaf are known.
unfoldable pub touch_at : Nodes → ℕ → List ℕ → ℕ → ℕ → Status × Nodes
touch_at t parent leaf owner mode = elim (find_child t parent leaf) [
  | some existing ↦ (if (node_at t existing).is_dir then fail else ok, t)
  | none ↦ elim (alloc_node t) [
    | none ↦ (fail, t)
    | some (node, t') ↦ (ok, set t' node (file_node (node_at t' node) parent leaf owner mode))
  ]
]

unfoldable pub fs_touch_as : Nodes → ℕ → List ℕ → ℕ → ℕ → Status × Nodes
fs_touch_as t cwd path owner mode = elim (resolve_parent_and_leaf t cwd path) [
  | none ↦ (fail, t)
  | some (parent, leaf) ↦ touch_at t parent leaf owner mode
]

unfoldable pub fs_touch : Nodes → ℕ → List ℕ → Status × Nodes
fs_touch t cwd path = fs_touch_as t cwd path 0 fs_default_file_mode
