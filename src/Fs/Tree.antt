-- ===== src/Fs/Tree.antt =====
-- The shape that kernel/fs.c keeps its table in: a tree of used nodes under the root.
use fur_os.Prelude.{
  ℕ, zero, suc, ◌<◌, ◌≡◌, ◌≢◌, refl, true, false, [], ◌∷◌, arith, length, set, ltb, ◌==◌,
  if◌then◌else◌, length-set, get_or-set_self, get_or-set_ne, set_past, get_or_past, Bool-cases, inl,
  inr, ap,
}
use fur_os.Fs.Node.{Node, Nodes, node_at, blank, fs_max_nodes}

abbrev pub IsUsed : Nodes → ℕ → Type 0
IsUsed t i = (node_at t i).used ≡ true

-- A directory that is in use.
pub record IsDirectory (t : Nodes) (i : ℕ) : Type 0 where
  pub used : IsUsed t i
  pub is_dir : (node_at t i).is_dir ≡ true

-- The parents of the used nodes are directories in use, up to the root.
pub record IsTree (t : Nodes) : Type 0 where
  pub table : length t ≡ fs_max_nodes
  pub root : IsDirectory t 0
  pub root_parent : (node_at t 0).parent ≡ 0
  pub parents : (i : ℕ) → IsUsed t i → IsDirectory t (node_at t i).parent

-- A used node that its chain of parents leads to the root.
pub data Under (t : Nodes) : ℕ → Type 0 where
  top : Under t 0
  below : (i : ℕ) → IsUsed t i → Under t (node_at t i).parent → Under t i

-- No used node lies on a cycle of parents.
pub record IsRooted (t : Nodes) : Type 0 where
  pub under : (i : ℕ) → IsUsed t i → Under t i

module _ (t : Nodes) where
  pub used-lt : (i : ℕ) → length t ≡ fs_max_nodes → IsUsed t i → i < fs_max_nodes
  used-lt i l u = elim (Bool-cases (ltb i fs_max_nodes)) [
    | inl e ↦ ground arith
    | inr e ↦ absurd (ground (arith, get_or_past t i blank))
  ]

  pub node_at-set :
      (i j : ℕ) (n : Node)
      → i < length t
      → node_at (set t i n) j ≡ (if i == j then n else node_at t j)
  node_at-set i j n h = elim (Bool-cases (i == j)) [
    | inl e ↦ ground (arith, get_or-set_self t i n blank h)
    | inr e ↦ ground (arith, get_or-set_ne t i j n blank (ground arith))
  ]

  pub set-set_self : (i : ℕ) (m n : Node) → set (set t i m) i n ≡ set t i n
  set-set_self i m n = go t i
    where
      go : (t : Nodes) (i : ℕ) → set (set t i m) i n ≡ set t i n
      go [] i = refl
      go (x ∷ xs) zero = refl
      go (x ∷ xs) (suc i) = ap (λ r. x ∷ r) (go xs i)

-- The fields that make the tree.
pub record SameShape (m n : Node) : Type 0 where
  pub used : n.used ≡ m.used
  pub is_dir : n.is_dir ≡ m.is_dir
  pub parent : n.parent ≡ m.parent

-- Two tables of one shape.
module _ (t t' : Nodes) (same : (j : ℕ) → SameShape (node_at t j) (node_at t' j)) where
  IsDirectory-same : (j : ℕ) → IsDirectory t j → IsDirectory t' j
  IsDirectory-same j d = ground (arith, same j)

  pub IsTree-same : length t' ≡ length t → IsTree t → IsTree t'
  IsTree-same l v = record {
    table = ground (arith, v.table);
    root = IsDirectory-same 0 v.root;
    root_parent = ground (arith, same 0, v.root_parent);
    parents = λ i u.
        rw (same i).parent
          (IsDirectory-same (node_at t i).parent (v.parents i (ground (arith, same i))));
  }

  Under-same : {i : ℕ} → Under t i → Under t' i
  Under-same top = top
  Under-same (below i u r) = below i (ground (arith, same i)) (rw (same i).parent (Under-same r))

  pub IsRooted-same : IsRooted t → IsRooted t'
  IsRooted-same v = record { under = λ i u. Under-same (v.under i (ground (arith, same i))) }

module _ (t : Nodes) (i : ℕ) (n : Node) where
  -- A write that leaves the shape of one node leaves that of all.
  SameShape-set :
      SameShape (node_at t i) n → (j : ℕ) → SameShape (node_at t j) (node_at (set t i n) j)
  SameShape-set s j = elim (Bool-cases (ltb i (length t))) [
    | inl e ↦ rw (node_at-set t i j n (ground arith)) (ground arith)
    | inr e ↦
        rw (set_past t i n (ground arith)) (record { used = refl; is_dir = refl; parent = refl })
  ]

  pub IsTree-set_same : SameShape (node_at t i) n → IsTree t → IsTree (set t i n)
  IsTree-set_same s v = IsTree-same t (set t i n) (SameShape-set s) (length-set t i n) v

  pub IsRooted-set_same : SameShape (node_at t i) n → IsRooted t → IsRooted (set t i n)
  IsRooted-set_same s v = IsRooted-same t (set t i n) (SameShape-set s) v

-- A node that was free comes into use under a directory.
module _ (t : Nodes) (v : IsTree t) (i : ℕ) (n : Node) (low : i < fs_max_nodes)
    (free : (node_at t i).used ≡ false) (taken : n.used ≡ true)
    (home : IsDirectory t n.parent) where
  after : (j : ℕ) → node_at (set t i n) j ≡ (if i == j then n else node_at t j)
  after j = node_at-set t i j n (omega (arith, v.table))

  IsDirectory-add : (j : ℕ) → IsDirectory t j → IsDirectory (set t i n) j
  IsDirectory-add j d = ground (arith, after j, free)

  pub IsTree-add : IsTree (set t i n)
  IsTree-add = record {
    table = ground (arith, length-set t i n, v.table);
    root = IsDirectory-add 0 v.root;
    root_parent = ground (arith, after 0, v.root, v.root_parent, free);
    parents = λ j u. elim (Bool-cases (i == j)) [
      | inl e ↦ rw (after j, e) (IsDirectory-add n.parent home)
      | inr e ↦
          rw (after j, e)
            (IsDirectory-add (node_at t j).parent (v.parents j (ground (arith, after j))))
    ];
  }

  apart : (j : ℕ) → IsUsed t j → node_at (set t i n) j ≡ node_at t j
  apart j u = ground (arith, after j, free)

  Under-add : {j : ℕ} → Under t j → Under (set t i n) j
  Under-add top = top
  Under-add (below j u r) = below j (ground (arith, after j, free)) (rw (apart j u) (Under-add r))

  pub IsRooted-add : IsRooted t → IsRooted (set t i n)
  IsRooted-add r = record {
    under = λ j u. elim (Bool-cases (i == j)) [
      | inl e ↦ below j u (rw (after j, e) (Under-add (r.under n.parent home.used)))
      | inr e ↦ Under-add (r.under j (ground (arith, after j)))
    ];
  }

-- A node without children goes out of use.
module _ (t : Nodes) (v : IsTree t) (i : ℕ) (n : Node) (below_root : i ≢ 0) (gone : n.used ≡ false)
    (childless : (j : ℕ) → IsUsed t j → (node_at t j).parent ≢ i) where
  away : (j : ℕ) → j ≢ i → node_at (set t i n) j ≡ node_at t j
  away j h = get_or-set_ne t i j n blank (λ e. h (ground arith))

  remains : (j : ℕ) → IsUsed (set t i n) j → j ≢ i
  remains j u e = elim (Bool-cases (ltb i (length t))) [
    | inl b ↦ ground (arith, node_at-set t i j n (ground arith))
    | inr b ↦ ground (arith, set_past t i n (ground arith), get_or_past t i blank (ground arith))
  ]

  IsDirectory-remove : (j : ℕ) → j ≢ i → IsDirectory t j → IsDirectory (set t i n) j
  IsDirectory-remove j h d = ground (arith, away j h)

  parents-remove :
      (j : ℕ) → IsUsed (set t i n) j → IsDirectory (set t i n) (node_at (set t i n) j).parent
  parents-remove j u =
      let e : node_at (set t i n) j ≡ node_at t j = away j (remains j u) in
      let u' : IsUsed t j = ground arith in
      rw e (IsDirectory-remove (node_at t j).parent (childless j u') (v.parents j u'))

  pub IsTree-remove : IsTree (set t i n)
  IsTree-remove = record {
    table = ground (arith, length-set t i n, v.table);
    root = IsDirectory-remove 0 (λ e. below_root (ground arith)) v.root;
    root_parent = ground (arith, away 0 (λ e. below_root (ground arith)), v.root_parent);
    parents = parents-remove;
  }

  Under-remove : {j : ℕ} → Under t j → j ≢ i → Under (set t i n) j
  Under-remove top h = top
  Under-remove (below j u r) h =
      below j (ground (arith, away j h)) (rw (away j h) (Under-remove r (childless j u)))

  pub IsRooted-remove : IsRooted t → IsRooted (set t i n)
  IsRooted-remove r = record {
    under =
        λ j u. let h : j ≢ i = remains j u in Under-remove (r.under j (ground (arith, away j h))) h;
  }
