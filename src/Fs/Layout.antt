-- ===== src/Fs/Layout.antt =====
-- kernel/fs.c: what every node of the table holds in its arrays, in use or not.
pub mod Keeps
use fur_os.Prelude.{
  ℕ, ◌+◌, zero, suc, ◌≤◌, ◌<◌, ◌^◌, ◌≡◌, refl, ◌⊎◌, inl, inr, Bool, true, false, Option, none, some,
  List, [], ◌∷◌, arith, length, set, get_or, replicate, ltb, leb, ◌==◌, if◌then◌else◌, length-set,
  get_or-set_self, get_or-set_ne, set_past, get_or-replicate, length-replicate, Bool-cases,
  Option-cases, codes,
}
use fur_os.KString.{kstrcpy, kmemcpy, kstrlen}
use fur_os.KString.Copy.{length-kstrcpy, length-kmemcpy, kstrcpy-last}
use fur_os.Fs.Node.{
  Node, Nodes, node_at, blank, zeros, make_root, fs_init, Status, ok, fail, mode_bits, fs_max_nodes,
  fs_max_name, fs_max_file_size,
}
use fur_os.Fs.Find.{is_valid_name, reset_node}
use fur_os.Fs.Find.Name.{is_valid_name-le}
use fur_os.Fs.Tree.{node_at-set, IsTree, IsDirectory, IsUsed, used-lt}
use fur_os.Fs.Resolve.{fs_resolve, resolve_parent_and_leaf}
use fur_os.Fs.Resolve.Leaf.{resolve_parent_and_leaf-IsDirectory, resolve_parent_and_leaf-valid}
use fur_os.Fs.Create.{dir_node, file_node, mkdir_at, touch_at, fs_mkdir_as, fs_touch_as, fs_touch}
use fur_os.Fs.Create.Outcome.{
  Outcome, kept, added, mkdir_at-Outcome, touch_at-Outcome, IsFileTree, fs_touch_as-IsFileTree,
}
use fur_os.Fs.Files.{write_node, clamp_size}

-- The arrays have their sizes and their terminators, the numbers are in range.
pub record IsLaidOut (n : Node) : Type 0 where
  pub name_size : length n.name ≡ fs_max_name + 1
  pub name_end : get_or n.name fs_max_name 0 ≡ 0
  pub contents_size : length n.contents ≡ fs_max_file_size
  pub contents_end : get_or n.contents n.size 0 ≡ 0
  pub size : n.size < fs_max_file_size
  pub parent : n.parent < fs_max_nodes
  pub owner : n.owner < 2 ^ 16
  pub mode : n.mode < 512

-- Every node of the table is laid out.
pub record AllLaidOut (t : Nodes) : Type 0 where
  pub at : (i : ℕ) → IsLaidOut (node_at t i)

pub set-AllLaidOut :
    (t : Nodes) (i : ℕ) (n : Node) → AllLaidOut t → IsLaidOut n → AllLaidOut (set t i n)
set-AllLaidOut t i n v h = record {
  at = λ j. elim (Bool-cases (ltb i (length t))) [
    | inr e ↦ rw (set_past t i n (ground arith)) (v.at j)
    | inl e ↦ elim (Bool-cases (i == j)) [
      | inl q ↦ rw (node_at-set t i j n (ground arith), q) h
      | inr q ↦ rw (node_at-set t i j n (ground arith), q) (v.at j)
    ]
  ];
}

module _ (n : Node) (v : IsLaidOut n) where
  pub reset-IsLaidOut : IsLaidOut (reset_node n)
  reset-IsLaidOut = record {
    name_size = ground (arith, length-set n.name 0 0, v.name_size);
    name_end = ground (arith, get_or-set_ne n.name 0 31 0 0, v.name_end);
    contents_size = ground (arith, length-set n.contents 0 0, v.contents_size);
    contents_end = get_or-set_self n.contents 0 0 0 (omega (arith, v.contents_size));
    size = omega arith;
    parent = omega arith;
    owner = omega arith;
    mode = omega arith;
  }

  module _ (parent owner mode : ℕ) (leaf : List ℕ) (p : parent < fs_max_nodes) (o : owner < 2 ^ 16)
      (l : is_valid_name leaf ≡ true) where
    pub dir_node-IsLaidOut : IsLaidOut (dir_node n parent leaf owner mode)
    dir_node-IsLaidOut = record {
      name_size = ground (arith, length-kstrcpy n.name leaf, v.name_size);
      name_end = kstrcpy-last n.name leaf 31 v.name_end (is_valid_name-le leaf l) v.name_size;
      contents_size = v.contents_size;
      contents_end = v.contents_end;
      size = v.size;
      parent = p;
      owner = o;
      mode = omega arith;
    }

    pub file_node-IsLaidOut : IsLaidOut (file_node n parent leaf owner mode)
    file_node-IsLaidOut = record {
      name_size = ground (arith, length-kstrcpy n.name leaf, v.name_size);
      name_end = kstrcpy-last n.name leaf 31 v.name_end (is_valid_name-le leaf l) v.name_size;
      contents_size = ground (arith, length-set n.contents 0 0, v.contents_size);
      contents_end = get_or-set_self n.contents 0 0 0 (omega (arith, v.contents_size));
      size = omega arith;
      parent = p;
      owner = o;
      mode = omega arith;
    }

  pub write_node-IsLaidOut :
      (source : List ℕ) (size : ℕ) → size < fs_max_file_size → IsLaidOut (write_node n source size)
  write_node-IsLaidOut source size h =
      let kept : List ℕ = if ltb 0 size then kmemcpy n.contents source size else n.contents in
      let l : length kept ≡ fs_max_file_size =
        ground (arith, length-kmemcpy n.contents source size, v.contents_size) in
      record {
        name_size = v.name_size;
        name_end = v.name_end;
        contents_size = ground (arith, length-set kept size 0);
        contents_end = get_or-set_self kept size 0 0 (omega arith);
        size = h;
        parent = v.parent;
        owner = v.owner;
        mode = v.mode;
      }
