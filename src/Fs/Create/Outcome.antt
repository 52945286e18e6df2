-- ===== src/Fs/Create/Outcome.antt =====
-- `fs_mkdir_as` and `fs_touch_as`: what they may do to the table, and the tree that they keep.
use fur_os.Prelude.{
  ℕ, ◌≡◌, refl, true, false, none, some, List, arith, set, if◌then◌else◌, Option-cases, inl, inr,
  get_or-set_self, get_or-set_ne,
}
use fur_os.Fs.Node.{Node, Nodes, node_at, blank, Status, ok, fail}
use fur_os.Fs.Find.{scan, is_free, reset_node, alloc_node, find_child}
use fur_os.Fs.Find.Scan.{IsFirst, scan-IsFirst}
use fur_os.Fs.Tree.{IsUsed, IsDirectory, IsTree, IsRooted, IsTree-add, IsRooted-add, set-set_self}
use fur_os.Fs.Resolve.{resolve_parent_and_leaf}
use fur_os.Fs.Resolve.Leaf.{resolve_parent_and_leaf-IsDirectory}
use fur_os.Fs.Create.{dir_node, file_node, mkdir_at, touch_at, fs_mkdir_as, fs_touch_as}

-- The node that `alloc_node` takes: the first free one above the root.
pub alloc_node-IsFirst :
    (t t' : Nodes) (i : ℕ)
    → alloc_node t ≡ some (i, t')
    → IsFirst 1 128 (is_free t) i × (t' ≡ set t i (reset_node (node_at t i)))
unfolding alloc_node
alloc_node-IsFirst t t' i h = elim (Option-cases (scan 127 1 (is_free t))) [
  | inl e ↦ absurd (ground (arith, e))
  | inr (j, e) ↦ (scan-IsFirst 127 1 (is_free t) i (ground (arith, e)), ground (arith, e))
]

-- What the two functions leave: the table as it was, or with one free node taken for the name.
pub data Outcome (t : Nodes) (parent : ℕ) (leaf : List ℕ) (make : Node → Node)
    : Status → Nodes → Type 0 where
  kept : (s : Status) → Outcome t parent leaf make s t
  added :
      (i : ℕ)
      → find_child t parent leaf ≡ none
      → IsFirst 1 128 (is_free t) i
      → Outcome t parent leaf make ok (set t i (make (reset_node (node_at t i))))

module _ (t : Nodes) (parent : ℕ) (leaf : List ℕ) (owner mode : ℕ) (v : IsTree t) where
  taken :
      (t' : Nodes) (i : ℕ) (make : Node → Node)
      → find_child t parent leaf ≡ none
      → alloc_node t ≡ some (i, t')
      → Outcome t parent leaf make ok (set t' i (make (node_at t' i)))
  taken t' i make e h =
      let (first, q) = alloc_node-IsFirst t t' i h in
      rw
        (
          q,
          get_or-set_self t i (reset_node (node_at t i)) blank
              (omega (arith, first.below, v.table)),
          set-set_self t i,
        )
        (added i e first)

  pub mkdir_at-Outcome :
      let (s, t') = mkdir_at t parent leaf owner mode in
      Outcome t parent leaf (λ n. dir_node n parent leaf owner mode) s t'
  mkdir_at-Outcome = elim (Option-cases (find_child t parent leaf)) [
    | inr (i, e) ↦
        let q : mkdir_at t parent leaf owner mode ≡ (if (node_at t i).is_dir then ok else fail, t) =
          unfold mkdir_at in ground (arith, e) in
        rw q (kept (if (node_at t i).is_dir then ok else fail))
    | inl e ↦ elim (Option-cases (alloc_node t)) [
      | inl a ↦
          let q : mkdir_at t parent leaf owner mode ≡ (fail, t) =
            unfold mkdir_at in ground (arith, e, a) in
          rw q (kept fail)
      | inr ((i, t'), a) ↦
          let make : Node → Node = λ n. dir_node n parent leaf owner mode in
          let q : mkdir_at t parent leaf owner mode ≡ (ok, set t' i (make (node_at t' i))) =
            unfold mkdir_at in ground (arith, e, a) in
          rw q (taken t' i make e a)
    ]
  ]

  pub touch_at-Outcome :
      let (s, t') = touch_at t parent leaf owner mode in
      Outcome t parent leaf (λ n. file_node n parent leaf owner mode) s t'
  touch_at-Outcome = elim (Option-cases (find_child t parent leaf)) [
    | inr (i, e) ↦
        let q : touch_at t parent leaf owner mode ≡ (if (node_at t i).is_dir then fail else ok, t) =
          unfold touch_at in ground (arith, e) in
        rw q (kept (if (node_at t i).is_dir then fail else ok))
    | inl e ↦ elim (Option-cases (alloc_node t)) [
      | inl a ↦
          let q : touch_at t parent leaf owner mode ≡ (fail, t) =
            unfold touch_at in ground (arith, e, a) in
          rw q (kept fail)
      | inr ((i, t'), a) ↦
          let make : Node → Node = λ n. file_node n parent leaf owner mode in
          let q : touch_at t parent leaf owner mode ≡ (ok, set t' i (make (node_at t' i))) =
            unfold touch_at in ground (arith, e, a) in
          rw q (taken t' i make e a)
    ]
  ]

-- A tree without cycles.
pub record IsFileTree (t : Nodes) : Type 0 where
  pub tree : IsTree t
  pub rooted : IsRooted t

Outcome-IsFileTree :
    (t : Nodes) (parent : ℕ) (leaf : List ℕ) (make : Node → Node) {s : Status} {t' : Nodes}
    → IsFileTree t
    → IsDirectory t parent
    → ((n : Node) → ((make n).used ≡ n.used) × ((make n).parent ≡ parent))
    → Outcome t parent leaf make s t'
    → IsFileTree t'
Outcome-IsFileTree t parent leaf make v d m (kept s) = v
Outcome-IsFileTree t parent leaf make v d m (added i e first) =
    let new : Node = make (reset_node (node_at t i)) in
    let q : (new.used ≡ true) × (new.parent ≡ parent) = m (reset_node (node_at t i)) in
    let free : (node_at t i).used ≡ false = ground (arith, first.passes) in
    let home : IsDirectory t new.parent = rw q.1 d in
    record {
      tree = IsTree-add t v.tree i new first.below free q.0 home;
      rooted = IsRooted-add t v.tree i new first.below free q.0 home v.rooted;
    }

module _ (t : Nodes) (cwd : ℕ) (path : List ℕ) (owner mode : ℕ) (v : IsFileTree t)
    (d : IsDirectory t cwd) where
  pub fs_mkdir_as-IsFileTree : IsFileTree (fs_mkdir_as t cwd path owner mode).1
  fs_mkdir_as-IsFileTree = elim (Option-cases (resolve_parent_and_leaf t cwd path)) [
    | inl e ↦
        let q : fs_mkdir_as t cwd path owner mode ≡ (fail, t) =
          unfold fs_mkdir_as in ground (arith, e) in
        rw q v
    | inr ((parent, leaf), e) ↦
        let q : fs_mkdir_as t cwd path owner mode ≡ mkdir_at t parent leaf owner mode =
          unfold fs_mkdir_as in ground (arith, e) in
        rw q (
          Outcome-IsFileTree t parent leaf (λ n. dir_node n parent leaf owner mode) v
            (resolve_parent_and_leaf-IsDirectory t cwd path parent leaf v.tree d e)
            (λ n. (refl, refl)) (mkdir_at-Outcome t parent leaf owner mode v.tree))
  ]

  pub fs_touch_as-IsFileTree : IsFileTree (fs_touch_as t cwd path owner mode).1
  fs_touch_as-IsFileTree = elim (Option-cases (resolve_parent_and_leaf t cwd path)) [
    | inl e ↦
        let q : fs_touch_as t cwd path owner mode ≡ (fail, t) =
          unfold fs_touch_as in ground (arith, e) in
        rw q v
    | inr ((parent, leaf), e) ↦
        let q : fs_touch_as t cwd path owner mode ≡ touch_at t parent leaf owner mode =
          unfold fs_touch_as in ground (arith, e) in
        rw q (
          Outcome-IsFileTree t parent leaf (λ n. file_node n parent leaf owner mode) v
            (resolve_parent_and_leaf-IsDirectory t cwd path parent leaf v.tree d e)
            (λ n. (refl, refl)) (touch_at-Outcome t parent leaf owner mode v.tree))
  ]

-- A node in use is left as it is.
Outcome-used :
    (t : Nodes) (parent : ℕ) (leaf : List ℕ) (make : Node → Node) {s : Status} {t' : Nodes} (j : ℕ)
    → IsUsed t j
    → Outcome t parent leaf make s t'
    → node_at t' j ≡ node_at t j
Outcome-used t parent leaf make j u (kept s) = refl
Outcome-used t parent leaf make j u (added i e first) =
    get_or-set_ne t i j (make (reset_node (node_at t i))) blank (λ q. ground (arith, first.passes))

pub fs_touch_as-used :
    (t : Nodes) (cwd : ℕ) (path : List ℕ) (owner mode j : ℕ)
    → IsTree t
    → IsUsed t j
    → node_at (fs_touch_as t cwd path owner mode).1 j ≡ node_at t j
fs_touch_as-used t cwd path owner mode j v u =
    elim (Option-cases (resolve_parent_and_leaf t cwd path)) [
      | inl e ↦
          let q : fs_touch_as t cwd path owner mode ≡ (fail, t) =
            unfold fs_touch_as in ground (arith, e) in
          rw q
      | inr ((parent, leaf), e) ↦
          let q : fs_touch_as t cwd path owner mode ≡ touch_at t parent leaf owner mode =
            unfold fs_touch_as in ground (arith, e) in
          rw q (
            Outcome-used t parent leaf (λ n. file_node n parent leaf owner mode) j u
              (touch_at-Outcome t parent leaf owner mode v))
    ]

pub fs_mkdir_as-used :
    (t : Nodes) (cwd : ℕ) (path : List ℕ) (owner mode j : ℕ)
    → IsTree t
    → IsUsed t j
    → node_at (fs_mkdir_as t cwd path owner mode).1 j ≡ node_at t j
fs_mkdir_as-used t cwd path owner mode j v u =
    elim (Option-cases (resolve_parent_and_leaf t cwd path)) [
      | inl e ↦
          let q : fs_mkdir_as t cwd path owner mode ≡ (fail, t) =
            unfold fs_mkdir_as in ground (arith, e) in
          rw q
      | inr ((parent, leaf), e) ↦
          let q : fs_mkdir_as t cwd path owner mode ≡ mkdir_at t parent leaf owner mode =
            unfold fs_mkdir_as in ground (arith, e) in
          rw q (
            Outcome-used t parent leaf (λ n. dir_node n parent leaf owner mode) j u
              (mkdir_at-Outcome t parent leaf owner mode v))
    ]
