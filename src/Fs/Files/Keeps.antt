-- ===== src/Fs/Files/Keeps.antt =====
-- `fs_write_file` and `fs_remove` keep the tree; when `fs_remove` refuses.
use fur_os.Prelude.{
  ℕ, ◌<◌, ◌≡◌, ◌≢◌, refl, ◌↔◌, true, false, ◌&&◌, some, List, arith, set, ◌==◌, if◌then◌else◌,
  Bool-cases, Option-cases, inl, inr,
}
use fur_os.Fs.Node.{Node, Nodes, node_at, ok, fs_default_file_mode}
use fur_os.Fs.Find.{scan}
use fur_os.Fs.Find.Scan.{scan-IsFirst, scan-none}
use fur_os.Fs.Tree.{
  IsUsed, IsDirectory, IsTree, IsTree-set_same, IsRooted-set_same, IsTree-remove, node_at-set,
  IsRooted-remove, used-lt, SameShape,
}
use fur_os.Fs.Resolve.{fs_resolve}
use fur_os.Fs.Resolve.Walk.{fs_resolve-IsUsed}
use fur_os.Fs.Create.{fs_touch}
use fur_os.Fs.Create.Outcome.{IsFileTree, fs_touch_as-IsFileTree}
use fur_os.Fs.Files.{
  open_for_write, fs_write_file, write_node, clamp_size, has_parent, is_occupied, fs_remove,
}

pub set_same-IsFileTree :
    (t : Nodes) (i : ℕ) (n : Node)
    → IsFileTree t
    → SameShape (node_at t i) n
    → IsFileTree (set t i n)
set_same-IsFileTree t i n v s = record {
  tree = IsTree-set_same t i n s v.tree;
  rooted = IsRooted-set_same t i n s v.rooted;
}

module _ (t : Nodes) (cwd : ℕ) (path : List ℕ) (v : IsFileTree t) (d : IsDirectory t cwd) where
  pub open_for_write-IsFileTree : IsFileTree (open_for_write t cwd path).1
  open_for_write-IsFileTree =
      let touched : IsFileTree (fs_touch t cwd path).1 =
        unfold fs_touch in fs_touch_as-IsFileTree t cwd path 0 fs_default_file_mode v d in
      elim (Option-cases (fs_resolve t cwd path)) [
        | inr (i, e) ↦
            let q : (open_for_write t cwd path).1 ≡ t =
              unfold open_for_write in ground (arith, e) in
            rw q v
        | inl e ↦
            let q : (open_for_write t cwd path).1 ≡ (fs_touch t cwd path).1 =
              unfold open_for_write in ground (arith, e) in
            rw q touched
      ]

  pub fs_write_file-IsFileTree :
      (source : List ℕ) (size : ℕ) → IsFileTree (fs_write_file t cwd path source size).1
  fs_write_file-IsFileTree source size =
      let t' : Nodes = (open_for_write t cwd path).1 in
      elim (Option-cases (open_for_write t cwd path).0) [
        | inl e ↦
            let q : (fs_write_file t cwd path source size).1 ≡ t' =
              unfold fs_write_file in ground (arith, e) in
            rw q open_for_write-IsFileTree
        | inr (i, e) ↦ elim (Bool-cases (node_at t' i).is_dir) [
          | inl b ↦
              let q : (fs_write_file t cwd path source size).1 ≡ t' =
                unfold fs_write_file in ground (arith, e, b) in
              rw q open_for_write-IsFileTree
          | inr b ↦
              let q : (fs_write_file t cwd path source size).1
                  ≡ set t' i (write_node (node_at t' i) source (clamp_size size)) =
                unfold fs_write_file in ground (arith, e, b) in
              rw q (
                set_same-IsFileTree t' i (write_node (node_at t' i) source (clamp_size size))
                  open_for_write-IsFileTree (record { used = refl; is_dir = refl; parent = refl }))
        ]
      ]

-- `is_occupied` finds a child exactly where there is one.
is_occupied-false :
    (t : Nodes) (node j : ℕ)
    → IsTree t
    → is_occupied t node ≡ false
    → IsUsed t j
    → (node_at t j).parent ≢ node
unfolding is_occupied
is_occupied-false t node j v h u e = elim (Option-cases (scan 128 0 (has_parent t node))) [
  | inl q ↦ ground (arith, scan-none 128 0 (has_parent t node) j q, used-lt t j v.table u)
  | inr (i, q) ↦ ground (arith, q)
]

is_occupied-true :
    (t : Nodes) (node : ℕ)
    → is_occupied t node ≡ true
    → (i : ℕ) × IsUsed t i × ((node_at t i).parent ≡ node)
unfolding is_occupied
is_occupied-true t node h = elim (Option-cases (scan 128 0 (has_parent t node))) [
  | inl q ↦ absurd (ground (arith, q))
  | inr (i, q) ↦
      let p : has_parent t node i ≡ true = (scan-IsFirst 128 0 (has_parent t node) i q).passes in
      (i, ground arith, ground arith)
]

-- A path to a node that can be removed: not the root, and no node's parent.
pub record Removable (t : Nodes) (cwd : ℕ) (path : List ℕ) (node : ℕ) : Type 0 where
  pub resolves : fs_resolve t cwd path ≡ some node
  pub not_root : node ≢ 0
  pub childless : (j : ℕ) → IsUsed t j → (node_at t j).parent ≢ node

module _ (t : Nodes) (cwd : ℕ) (path : List ℕ) (v : IsFileTree t) (d : IsDirectory t cwd) where
  childless :
      (node j : ℕ)
      → (node_at t node).is_dir && is_occupied t node ≡ false
      → IsUsed t j
      → (node_at t j).parent ≢ node
  childless node j h u e = elim (Bool-cases (is_occupied t node)) [
    | inl b ↦ ground (arith, v.tree.parents j u)
    | inr b ↦ is_occupied-false t node j v.tree b u e
  ]

  pub fs_remove-IsFileTree : IsFileTree (fs_remove t cwd path).1
  fs_remove-IsFileTree = elim (Option-cases (fs_resolve t cwd path)) [
    | inl e ↦ let q : (fs_remove t cwd path).1 ≡ t = unfold fs_remove in ground (arith, e) in rw q v
    | inr (i, e) ↦ elim (Bool-cases (i == 0)) [
      | inl z ↦
          let q : (fs_remove t cwd path).1 ≡ t = unfold fs_remove in ground (arith, e, z) in rw q v
      | inr z ↦ elim (Bool-cases ((node_at t i).is_dir && is_occupied t i)) [
        | inl b ↦
            let q : (fs_remove t cwd path).1 ≡ t = unfold fs_remove in ground (arith, e, z, b) in
            rw q v
        | inr b ↦
            let n : Node = record (node_at t i) { used = false } in
            let q : (fs_remove t cwd path).1 ≡ set t i n =
              unfold fs_remove in ground (arith, e, z, b) in
            rw q (record {
              tree = IsTree-remove t v.tree i n (ground arith) refl (λ j u. childless i j b u);
              rooted =
                  IsRooted-remove t v.tree i n (ground arith) refl (λ j u. childless i j b u)
                    v.rooted;
            })
      ]
    ]
  ]

  free_node :
      (node : ℕ) → Removable t cwd path node → (node_at t node).is_dir && is_occupied t node ≡ false
  free_node node r = elim (Bool-cases (is_occupied t node)) [
    | inr b ↦ ground arith
    | inl b ↦ let (i, u, e) = is_occupied-true t node b in absurd (r.childless i u e)
  ]

  -- In a tree, from a directory in use, `fs_remove` succeeds exactly on a path that leads to a node
  -- other than the root that is the parent of no node in use.
  pub fs_remove_iff : ((fs_remove t cwd path).0 ≡ ok) ↔ ((node : ℕ) × Removable t cwd path node)
  fs_remove_iff = (
    λ h. elim (Option-cases (fs_resolve t cwd path)) [
      | inl e ↦ absurd (unfold fs_remove in ground (arith, e))
      | inr (i, e) ↦
          let b : (i ≢ 0) × ((node_at t i).is_dir && is_occupied t i ≡ false) =
            unfold fs_remove in ground (arith, e) in
          (i, record { resolves = e; not_root = b.0; childless = λ j u. childless i j b.1 u })
    ],
    λ (i, r).
        let b : (node_at t i).is_dir && is_occupied t i ≡ false = free_node i r in
        let z : (i == 0) ≡ false = ground (arith, r.not_root) in
        unfold fs_remove in ground (arith, r.resolves, z, b),
  )

  -- In a tree, from a directory in use: for a path that leads to a node other than the root that is
  -- the parent of no node in use, `fs_remove` takes that node out of use and leaves every other
  -- node as it is.
  fs_remove-node_at :
      (node j : ℕ)
      → Removable t cwd path node
      → node_at (fs_remove t cwd path).1 j
        ≡ (if node == j then record (node_at t j) { used = false } else node_at t j)
  fs_remove-node_at node j r =
      let n : Node = record (node_at t node) { used = false } in
      let b : (node_at t node).is_dir && is_occupied t node ≡ false = free_node node r in
      let z : (node == 0) ≡ false = ground (arith, r.not_root) in
      let q : (fs_remove t cwd path).1 ≡ set t node n =
        unfold fs_remove in ground (arith, r.resolves, z, b) in
      let low : node < 128 =
        used-lt t node v.tree.table (fs_resolve-IsUsed t cwd path node v.tree d.used r.resolves) in
      rw (q, node_at-set t node j n (omega (arith, v.tree.table))) (ground arith)
