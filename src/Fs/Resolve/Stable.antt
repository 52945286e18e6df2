-- ===== src/Fs/Resolve/Stable.antt =====
-- How `fs_resolve` depends on the table: on names and parents only, and a new name in a directory
-- leaves what older paths lead to.
use fur_os.Prelude.{
  ℕ, ◌<◌, ◌≡◌, ◌≢◌, sym, ◌∙◌, true, false, none, some, List, [], ◌∷◌, ◌++◌, arith, set, ltb, ◌==◌,
  if◌then◌else◌, Bool-cases, Option-cases, inl, inr, get_or-set_ne, get_or-set_self,
}
use fur_os.KString.{byte_at, str_eq}
use fur_os.KString.Compare.{cstr, str_eq_iff}
use fur_os.Fs.Node.{Node, Nodes, node_at, blank, fs_max_nodes}
use fur_os.Fs.Find.{find_child, is_child}
use fur_os.Fs.Find.Scan.{scan-IsFirst, IsFirst, scan-none, scan_unique, scan_ext}
use fur_os.Fs.Tree.{IsUsed, IsTree, used-lt}
use fur_os.Fs.Resolve.{enter, resolve_from, fs_resolve}
use fur_os.Fs.Resolve.Walk.{step, walk, enter-IsUsed}

-- The fields that `fs_resolve` reads.
pub record SameName (m n : Node) : Type 0 where
  pub used : n.used ≡ m.used
  pub parent : n.parent ≡ m.parent
  pub name : n.name ≡ m.name

module _ (t t' : Nodes) (same : (i : ℕ) → SameName (node_at t i) (node_at t' i)) where
  find_child-same : (p : ℕ) (name : List ℕ) → find_child t p name ≡ find_child t' p name
  unfolding find_child
  find_child-same p name =
      scan_ext 128 0 (is_child t p name) (is_child t' p name) (λ i. ground (arith, same i))

  enter-same : (c : ℕ) (token : List ℕ) → enter t c token ≡ enter t' c token
  unfolding enter
  enter-same c token = ground (arith, same c, find_child-same c token)

  resolve_from-same :
      (path : List ℕ) (c : ℕ) (token : List ℕ)
      → resolve_from t c token path ≡ resolve_from t' c token path
  unfolding resolve_from
  resolve_from-same [] c token = enter-same c token
  resolve_from-same (b ∷ s) c token = elim (Option-cases (enter t c token)) [
    | inl e ↦ ground (arith, enter-same c token, e, resolve_from-same s c (token ++ b ∷ []))
    | inr (d, e) ↦ ground (
      arith,
      enter-same c token,
      e,
      resolve_from-same s d [],
      resolve_from-same s c (token ++ b ∷ []),
    )
  ]

  pub fs_resolve-same : (cwd : ℕ) (path : List ℕ) → fs_resolve t cwd path ≡ fs_resolve t' cwd path
  unfolding fs_resolve
  fs_resolve-same cwd path =
      rw (resolve_from-same path (if byte_at path 0 == b'/' then 0 else cwd) [])

-- A name that is new in its directory is given to the free node `i`.
module _ (t : Nodes) (v : IsTree t) (i : ℕ) (n : Node) (leaf : List ℕ) (low : i < fs_max_nodes)
    (free : (node_at t i).used ≡ false) (taken : n.used ≡ true) (named : cstr n.name ≡ cstr leaf)
    (fresh : find_child t n.parent leaf ≡ none) where
  pub apart : (j : ℕ) → i ≢ j → node_at (set t i n) j ≡ node_at t j
  apart j h = get_or-set_ne t i j n blank h

  there : node_at (set t i n) i ≡ n
  there = get_or-set_self t i n blank (omega (arith, v.table))

  no_child : (j : ℕ) → is_child t n.parent leaf j ≡ false
  unfolding find_child
  no_child j = elim (Bool-cases (ltb j 128)) [
    | inl b ↦ scan-none 128 0 (is_child t n.parent leaf) j fresh (omega arith) (ground arith)
    | inr b ↦ elim (Bool-cases (node_at t j).used) [
      | inl u ↦ absurd (ground (arith, used-lt t j v.table u))
      | inr u ↦ ground arith
    ]
  ]

  -- Where the new node answers to a name, an older child of that name does not exist.
  clash :
      (p j : ℕ) (name : List ℕ)
      → is_child t p name j ≡ true
      → is_child (set t i n) p name i ≡ true
      → ⊥
  clash p j name c d =
      let e : (n.parent ≡ p) × (str_eq n.name name ≡ true) = ground (arith, there) in
      let f : cstr (node_at t j).name ≡ cstr leaf =
        (str_eq_iff (node_at t j).name name).0 (ground arith)
        ∙ sym ((str_eq_iff n.name name).0 e.1)
        ∙ named in
      ground (arith, no_child j, (str_eq_iff (node_at t j).name leaf).1 f)

  find_child-add :
      (p j : ℕ) (name : List ℕ)
      → find_child t p name ≡ some j
      → find_child (set t i n) p name ≡ some j
  unfolding find_child
  find_child-add p j name h =
      let f : IsFirst 0 128 (is_child t p name) j = scan-IsFirst 128 0 (is_child t p name) j h in
      let other : i ≢ j = λ e. ground (arith, f.passes, free) in
      scan_unique 128 0 (is_child (set t i n) p name) j f.above f.below
        (ground (arith, apart j other, f.passes))
        (λ k a b. elim (Bool-cases (i == k)) [
          | inr q ↦ ground (arith, apart k (ground arith), f.first k a b)
          | inl q ↦ elim (Bool-cases (is_child (set t i n) p name i)) [
            | inl y ↦ absurd (clash p j name f.passes y)
            | inr y ↦ ground arith
          ]
        ])

  -- The new name is found.
  pub find_child-added : find_child (set t i n) n.parent leaf ≡ some i
  unfolding find_child
  find_child-added =
      scan_unique 128 0 (is_child (set t i n) n.parent leaf) i (omega arith) (omega arith)
        (ground (arith, there, (str_eq_iff n.name leaf).1 named))
        (λ k a b. ground (arith, apart k (omega arith), no_child k))

  enter-add :
      (c d : ℕ) (token : List ℕ)
      → IsUsed t c
      → enter t c token ≡ some d
      → enter (set t i n) c token ≡ some d
  unfolding enter
  enter-add c d token u h =
      ground (arith, find_child-add c d token, apart c (λ e. ground (arith, free)))

  -- What a walk led to, it leads to still.
  pub walk-add :
      (names : List (List ℕ)) (c d : ℕ)
      → IsUsed t c
      → walk t c names ≡ some d
      → walk (set t i n) c names ≡ some d
  unfolding walk step
  walk-add [] c d u h = h
  walk-add (name ∷ names) c d u h = elim (Option-cases (enter t c name)) [
    | inl e ↦ absurd (ground (arith, e))
    | inr (k, e) ↦
        ground (arith, e, enter-add c k name u e, enter-IsUsed t c name k v u e, walk-add names k d)
  ]
