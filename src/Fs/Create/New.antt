-- ===== src/Fs/Create/New.antt =====
-- Where the node that `fs_mkdir_as` or `fs_touch_as` adds hangs.
use fur_os.Prelude.{
  ℕ, ◌≡◌, refl, some, List, arith, Option-cases, Bool-cases, inl, inr, ◌==◌, false,
}
use fur_os.Fs.Node.{Node, Nodes, node_at, Status, fail}
use fur_os.Fs.Find.{reset_node}
use fur_os.Fs.Tree.{IsUsed, IsTree, node_at-set}
use fur_os.Fs.Resolve.{resolve_parent_and_leaf}
use fur_os.Fs.Create.{dir_node, file_node, mkdir_at, touch_at, fs_mkdir_as, fs_touch_as}
use fur_os.Fs.Create.Outcome.{Outcome, kept, added, mkdir_at-Outcome, touch_at-Outcome}

-- A node that comes into use has the parent for its parent, and is the one that `make` makes.
Outcome-new :
    (t : Nodes) (parent : ℕ) (leaf : List ℕ) (make : Node → Node) {s : Status} {t' : Nodes} (j : ℕ)
    → IsTree t
    → ((n : Node) → (make n).parent ≡ parent)
    → (node_at t j).used ≡ false
    → IsUsed t' j
    → Outcome t parent leaf make s t'
    → (node_at t' j).parent ≡ parent
Outcome-new t parent leaf make j v m free u (kept s) = absurd (ground (arith, free, u))
Outcome-new t parent leaf make j v m free u (added i e first) =
    let at =
      node_at-set t i j (make (reset_node (node_at t i))) (omega (arith, first.below, v.table)) in
    elim (Bool-cases (i == j)) [
      | inl y ↦ ground (arith, at, y, m (reset_node (node_at t i)))
      | inr n ↦ absurd (ground (arith, at, n, free, u))
    ]

-- The parent of a new node is the one that the path gives.
pub record IsNew (t : Nodes) (cwd : ℕ) (path : List ℕ) (parent : ℕ) : Type 0 where
  pub leaf : List ℕ
  pub found : resolve_parent_and_leaf t cwd path ≡ some (parent, leaf)

module _ (t : Nodes) (cwd : ℕ) (path : List ℕ) (owner mode j : ℕ) (v : IsTree t)
    (free : (node_at t j).used ≡ false) where
  pub fs_mkdir_as-IsNew :
      IsUsed (fs_mkdir_as t cwd path owner mode).1 j
      → IsNew t cwd path (node_at (fs_mkdir_as t cwd path owner mode).1 j).parent
  fs_mkdir_as-IsNew u = elim (Option-cases (resolve_parent_and_leaf t cwd path)) [
    | inl e ↦
        let q : fs_mkdir_as t cwd path owner mode ≡ (fail, t) =
          unfold fs_mkdir_as in ground (arith, e) in
        absurd (ground (arith, q, u, free))
    | inr ((p, leaf), e) ↦
        let q : fs_mkdir_as t cwd path owner mode ≡ mkdir_at t p leaf owner mode =
          unfold fs_mkdir_as in ground (arith, e) in
        let at =
          Outcome-new t p leaf (λ n. dir_node n p leaf owner mode) j v (λ n. refl) free (rw q at u)
            (mkdir_at-Outcome t p leaf owner mode v) in
        rw (q, at) (record { leaf = leaf; found = e })
  ]

  pub fs_touch_as-IsNew :
      IsUsed (fs_touch_as t cwd path owner mode).1 j
      → IsNew t cwd path (node_at (fs_touch_as t cwd path owner mode).1 j).parent
  fs_touch_as-IsNew u = elim (Option-cases (resolve_parent_and_leaf t cwd path)) [
    | inl e ↦
        let q : fs_touch_as t cwd path owner mode ≡ (fail, t) =
          unfold fs_touch_as in ground (arith, e) in
        absurd (ground (arith, q, u, free))
    | inr ((p, leaf), e) ↦
        let q : fs_touch_as t cwd path owner mode ≡ touch_at t p leaf owner mode =
          unfold fs_touch_as in ground (arith, e) in
        let at =
          Outcome-new t p leaf (λ n. file_node n p leaf owner mode) j v (λ n. refl) free (rw q at u)
            (touch_at-Outcome t p leaf owner mode v) in
        rw (q, at) (record { leaf = leaf; found = e })
  ]
