-- ===== src/Fs/Node.antt =====
-- kernel/fs.c, kernel/fs.h: `struct fs_node`, the table `nodes` and `fs_init`.
--
-- An `int` that names a node is the 32-bit pattern that it has, so a negative one is past the
-- table like any other bad index. A read outside the table, which C leaves undefined, gives a
-- blank node here; the invariant of Fs/Tree rules it out.
use fur_os.Prelude.{
  ◌≡◌, refl, ℕ, ◌+◌, ◌%◌, ◌^◌, Bool, true, false, ◌&&◌, Option, none, some, List, get_or, set,
  replicate, ltb, leb, if◌then◌else◌, codes,
}
use fur_os.KString.{kstrcpy}

abbrev pub fs_max_nodes : ℕ
fs_max_nodes = 128

abbrev pub fs_max_name : ℕ
fs_max_name = 31

abbrev pub fs_max_file_size : ℕ
fs_max_file_size = 4096

-- 0755
abbrev pub fs_default_dir_mode : ℕ
fs_default_dir_mode = 0o755

-- 0644
abbrev pub fs_default_file_mode : ℕ
fs_default_file_mode = 0o644

-- `mode & 0777u`
abbrev pub mode_bits : ℕ → ℕ
mode_bits mode = mode % 512

-- `name` and `contents` (the source's `data`) are the whole arrays.
pub record Node : Type 0 where
  pub used : Bool
  pub is_dir : Bool
  pub parent : ℕ
  pub owner : ℕ
  pub mode : ℕ
  pub name : List ℕ
  pub contents : List ℕ
  pub size : ℕ

abbrev pub Nodes : Type 0
Nodes = List Node

-- An array of `n` zero bytes.
unfoldable pub zeros : ℕ → List ℕ
zeros n = replicate n 0

-- A node after `kmemset(nodes, 0, sizeof(nodes))`.
abbrev pub blank : Node
blank = record {
  used = false;
  is_dir = false;
  parent = 0;
  owner = 0;
  mode = 0;
  name = zeros (fs_max_name + 1);
  contents = zeros fs_max_file_size;
  size = 0;
}

-- nodes[i]
abbrev pub node_at : Nodes → ℕ → Node
node_at t i = get_or t i blank

-- `node >= 0 && node < FS_MAX_NODES && nodes[node].used`
abbrev pub is_node : Nodes → ℕ → Bool
is_node t node = ltb node fs_max_nodes && (node_at t node).used

-- An `int` that is returned and that callers only test for its sign: `none` is any negative one.
abbrev pub ret_int : ℕ → Option ℕ
ret_int n = if leb (2 ^ 31) n then none else some n

pub data Status : Type 0 where
  ok fail : Status

-- A property of both branches on a status is one of the whole.
pub status_branch {ℓ κ} :
    {A : Type ℓ} {a b : A}
    → (P : A → Type κ) (s : Status) → (s ≡ ok → P a)
    → (s ≡ fail → P b)
    → P (elim s [ ok ↦ a | fail ↦ b ])
status_branch P ok h k = h refl
status_branch P fail h k = k refl

-- The last six statements of `fs_init`, which `fs_deserialize` repeats.
unfoldable pub make_root : Node → Node
make_root n = record n {
  used = true;
  is_dir = true;
  parent = 0;
  owner = 0;
  mode = fs_default_dir_mode;
  name = kstrcpy n.name (codes "/");
}

unfoldable pub fs_init : Nodes
unfolding make_root
fs_init = set (replicate fs_max_nodes blank) 0 (make_root blank)

abbrev pub fs_get_root : ℕ
fs_get_root = 0

unfoldable pub fs_get_parent : Nodes → ℕ → Option ℕ
fs_get_parent t node = if is_node t node then ret_int (node_at t node).parent else none

unfoldable pub fs_is_dir : Nodes → ℕ → Bool
fs_is_dir t node = if is_node t node then (node_at t node).is_dir else false

-- `none` is the null pointer.
unfoldable pub fs_get_name : Nodes → ℕ → Option (List ℕ)
fs_get_name t node = if is_node t node then some (node_at t node).name else none
