-- ===== src/Fs/Find.antt =====
-- kernel/fs.c: `is_valid_name`, `alloc_node`, `find_child`.
pub mod Scan
pub mod Name
use fur_os.Prelude.{
  ℕ, zero, suc, ◌+◌, Bool, true, false, ◌&&◌, ◌||◌, not, Option, none, some, List, [], ◌∷◌, set,
  ltb, ◌==◌, if◌then◌else◌, ◌>>=◌,
}
use fur_os.KString.{str_eq, byte_at}
use fur_os.Fs.Node.{Node, Nodes, node_at, fs_max_nodes, fs_max_name, fs_default_file_mode}

-- The loop of `is_valid_name` from index `i` on.
valid_from : ℕ → List ℕ → Bool
valid_from i [] = true
valid_from i (c ∷ rest) =
    let more = valid_from (i + 1) rest in
    if c == 0
    then true
    else if c == b'/'
    then false
    else if ltb fs_max_name (i + 1)
    then false
    else more

unfoldable pub is_valid_name : List ℕ → Bool
unfolding valid_from
is_valid_name name = if byte_at name 0 == 0 then false else valid_from 0 name

-- `for (; i < limit; i++) if (test(i)) return i;` with `limit - i` rounds left.
unfoldable pub scan : ℕ → ℕ → (ℕ → Bool) → Option ℕ
scan zero i test = none
scan (suc k) i test = elim (test i) [ true ↦ some i | false ↦ scan k (suc i) test ]

-- What `alloc_node` writes into the node that it takes.
abbrev pub reset_node : Node → Node
reset_node n = record n {
  used = true;
  is_dir = false;
  parent = 0;
  owner = 0;
  mode = fs_default_file_mode;
  size = 0;
  name = set n.name 0 0;
  contents = set n.contents 0 0;
}

abbrev pub is_free : Nodes → ℕ → Bool
is_free t i = not (node_at t i).used

unfoldable pub alloc_node : Nodes → Option (ℕ × Nodes)
alloc_node t = do i ← scan 127 1 (is_free t); some (i, set t i (reset_node (node_at t i)))

abbrev pub is_child : Nodes → ℕ → List ℕ → ℕ → Bool
is_child t parent name i =
    (node_at t i).used && ((node_at t i).parent == parent && str_eq (node_at t i).name name)

unfoldable pub find_child : Nodes → ℕ → List ℕ → Option ℕ
find_child t parent name = scan fs_max_nodes 0 (is_child t parent name)
