-- ===== src/Fs/Create/Lookup.antt =====
-- What `fs_mkdir_as` and `fs_touch_as` made is what the path then leads to.
use fur_os.Prelude.{
  ℕ, ◌≤◌, ◌<◌, ◌≡◌, refl, sym, ◌∙◌, ap, Bool, true, false, none, some, List, [], ◌∷◌, ◌++◌, arith,
  length, set, if◌then◌else◌, Option-cases, inl, inr, codes, get_or-set_self, get_or-set_ne,
}
use fur_os.KString.{str_eq, kstrcpy}
use fur_os.KString.Compare.{cstr, kstrlen-eq-length}
use fur_os.KString.Copy.{cstr-kstrcpy}
use fur_os.Fs.Node.{Node, Nodes, node_at, blank, ok, fail, fs_max_name, fs_max_nodes}
use fur_os.Fs.Find.{find_child, alloc_node, is_valid_name, reset_node, is_child}
use fur_os.Fs.Find.Name.{is_valid_name-le, is_valid_name-nonempty}
use fur_os.Fs.Find.Scan.{scan-IsFirst}
use fur_os.Fs.Tree.{IsUsed, IsDirectory, IsTree, IsTree-add, set-set_self}
use fur_os.Fs.Resolve.{enter, fs_resolve, resolve_parent_and_leaf}
use fur_os.Fs.Resolve.Walk.{components, walk, step, start, start-IsUsed, fs_resolve-eq-walk}
use fur_os.Fs.Resolve.Leaf.{
  HasNo, IsLeafOf, cstr-HasNo, resolve_parent_and_leaf-IsLeafOf,
  resolve_parent_and_leaf-IsDirectory,
}
use fur_os.Fs.Resolve.Stable.{walk-add, find_child-added}
use fur_os.Fs.Create.{dir_node, file_node, mkdir_at, touch_at, fs_mkdir_as, fs_touch_as}
use fur_os.Fs.Create.Outcome.{alloc_node-IsFirst}
use fur_os.Fs.Layout.{reset-IsLaidOut}
use fur_os.Fs.System.{IsFileSystem}

-- A name that `fs_resolve` looks up, rather than stays or goes up.
pub record IsPlain (leaf : List ℕ) : Type 0 where
  pub not_dot : str_eq leaf (codes ".") ≡ false
  pub not_dots : str_eq leaf (codes "..") ≡ false

length_leaf : (leaf : List ℕ) → HasNo 0 leaf → is_valid_name leaf ≡ true → length leaf ≤ fs_max_name
length_leaf leaf z h = rw (← cstr-HasNo leaf z, ← kstrlen-eq-length leaf) (is_valid_name-le leaf h)

enter_leaf :
    (t : Nodes) (p : ℕ) (leaf : List ℕ)
    → IsPlain leaf
    → HasNo 0 leaf
    → is_valid_name leaf ≡ true
    → step t p leaf ≡ find_child t p leaf
unfolding step enter
enter_leaf t p [] d z h = absurd (is_valid_name-nonempty [] h refl)
enter_leaf t p (c ∷ s) d z h = ground (arith, length_leaf (c ∷ s) z h, d)

walk_snoc :
    (t : Nodes) (names : List (List ℕ)) (leaf : List ℕ) (c p : ℕ)
    → walk t c names ≡ some p
    → walk t c (names ++ leaf ∷ []) ≡ step t p leaf
unfolding walk
walk_snoc t [] leaf c p h = elim (Option-cases (step t c leaf)) [
  | inl e ↦ ground (arith, e)
  | inr (d, e) ↦ ground (arith, e)
]
walk_snoc t (name ∷ names) leaf c p h = elim (Option-cases (step t c name)) [
  | inl e ↦ absurd (ground (arith, e))
  | inr (d, e) ↦ ground (arith, e, walk_snoc t names leaf d p)
]

-- Where the path leads, once its parent is known to be led to.
leads :
    (t : Nodes) (cwd : ℕ) (path : List ℕ) (above : List (List ℕ)) (parent : ℕ) (leaf : List ℕ)
    → IsTree t
    → IsUsed t cwd
    → components path ≡ above ++ leaf ∷ []
    → walk t (start cwd path) above ≡ some parent
    → fs_resolve t cwd path ≡ step t parent leaf
leads t cwd path above parent leaf v u e h =
    fs_resolve-eq-walk t cwd path v u
    ∙ ap (walk t (start cwd path)) e
    ∙ walk_snoc t above leaf (start cwd path) parent h

-- `path` leads to a node in use, in the directory `parent`, that is a directory or a file.
pub record Leads (t : Nodes) (cwd : ℕ) (path : List ℕ) (parent : ℕ) (is_dir : Bool) : Type 0 where
  pub node : ℕ
  pub resolves : fs_resolve t cwd path ≡ some node
  pub used : IsUsed t node
  pub kind : (node_at t node).is_dir ≡ is_dir
  pub inside : (node_at t node).parent ≡ parent

module _ (t : Nodes) (cwd : ℕ) (path : List ℕ) (parent : ℕ) (leaf : List ℕ) (v : IsFileSystem t)
    (d : IsDirectory t cwd) (z : HasNo 0 path)
    (h : resolve_parent_and_leaf t cwd path ≡ some (parent, leaf)) (plain : IsPlain leaf) where
  at_leaf : IsLeafOf t cwd path parent leaf
  at_leaf = resolve_parent_and_leaf-IsLeafOf t cwd path parent leaf v.files.tree d.used z h

  -- An older child of that name.
  found_old : (i : ℕ) → find_child t parent leaf ≡ some i → fs_resolve t cwd path ≡ some i
  found_old i e =
      leads t cwd path at_leaf.above parent leaf v.files.tree d.used at_leaf.split at_leaf.leads
      ∙ enter_leaf t parent leaf plain at_leaf.no_zero at_leaf.is_valid
      ∙ e

  -- A node that was made for that name.
  found_new :
      (i : ℕ) (n : Node)
      → find_child t parent leaf ≡ none
      → i < fs_max_nodes
      → (node_at t i).used ≡ false
      → n.used ≡ true
      → n.parent ≡ parent
      → cstr n.name ≡ cstr leaf
      → (fs_resolve (set t i n) cwd path ≡ some i) × (node_at (set t i n) i ≡ n)
  found_new i n e low free taken p named =
      let home : IsDirectory t n.parent =
        rw p (resolve_parent_and_leaf-IsDirectory t cwd path parent leaf v.files.tree d h) in
      let fresh : find_child t n.parent leaf ≡ none = rw p e in
      let tree : IsTree (set t i n) = IsTree-add t v.files.tree i n low free taken home in
      let led : walk (set t i n) (start cwd path) at_leaf.above ≡ some n.parent =
        walk-add t v.files.tree i n leaf low free taken named fresh at_leaf.above (start cwd path)
          n.parent (start-IsUsed t cwd path v.files.tree d.used)
          (at_leaf.leads ∙ ap some (sym p)) in
      let here : node_at (set t i n) i ≡ n =
        get_or-set_self t i n blank (omega (arith, v.files.tree.table)) in
      let still : IsUsed (set t i n) cwd =
        ground (arith, get_or-set_ne t i cwd n blank (λ e. ground (arith, free, d.used)), d.used) in
      (
        leads (set t i n) cwd path at_leaf.above n.parent leaf tree still at_leaf.split led
            ∙ enter_leaf (set t i n) n.parent leaf plain at_leaf.no_zero at_leaf.is_valid
            ∙ find_child-added t v.files.tree i n leaf low free taken named fresh,
        here,
      )

  old_Leads :
      (j : ℕ) (kind : Bool)
      → find_child t parent leaf ≡ some j
      → (node_at t j).is_dir ≡ kind
      → Leads t cwd path parent kind
  unfolding find_child
  old_Leads j kind e k =
      let f : is_child t parent leaf j ≡ true =
        (scan-IsFirst 128 0 (is_child t parent leaf) j e).passes in
      record {
        node = j;
        resolves = found_old j e;
        used = ground arith;
        kind = k;
        inside = ground arith;
      }

  remade :
      (u : Nodes) (i : ℕ) (make : Node → Node)
      → alloc_node t ≡ some (i, u)
      → set u i (make (node_at u i)) ≡ set t i (make (reset_node (node_at t i)))
  remade u i make a =
      let (first, q) = alloc_node-IsFirst t u i a in
      rw (
        q,
        get_or-set_self t i (reset_node (node_at t i)) blank
            (omega (arith, first.below, v.files.tree.table)),
        set-set_self t i,
      )

  new_Leads :
      (u : Nodes) (i : ℕ) (make : Node → Node) (kind : Bool)
      → find_child t parent leaf ≡ none
      → alloc_node t ≡ some (i, u)
      → ((n : Node)
          → ((make n).used ≡ n.used)
            × ((make n).is_dir ≡ kind)
            × ((make n).parent ≡ parent)
            × ((make n).name ≡ kstrcpy n.name leaf))
      → Leads (set t i (make (reset_node (node_at t i)))) cwd path parent kind
  new_Leads u i make kind e a m =
      let (first, q) = alloc_node-IsFirst t u i a in
      let r : Node = reset_node (node_at t i) in
      let (mu, mk, mp, mn) = m r in
      let named : cstr (make r).name ≡ cstr leaf =
        ap cstr mn
        ∙ cstr-kstrcpy r.name leaf (
            omega (
              arith,
              is_valid_name-le leaf at_leaf.is_valid,
              (reset-IsLaidOut (node_at t i) (v.layout.at i)).name_size,
            )) in
      let (led, here) =
        found_new i (make r) e first.below (ground (arith, first.passes)) mu mp named in
      record { node = i; resolves = led; used = rw here mu; kind = rw here mk; inside = rw here mp }

  -- In a file system, from a directory in use, for a path that splits into a parent and a leaf
  -- other than `.` and `..`: where `fs_mkdir_as` returns 0, the path then leads to a directory in
  -- use in that parent, whether it was there or has been made.
  pub mkdir-resolve :
      (owner mode : ℕ)
      → (fs_mkdir_as t cwd path owner mode).0 ≡ ok
      → Leads (fs_mkdir_as t cwd path owner mode).1 cwd path parent true
  mkdir-resolve owner mode done = elim (Option-cases (find_child t parent leaf)) [
    | inr (j, e) ↦
        let q : fs_mkdir_as t cwd path owner mode ≡ (if (node_at t j).is_dir then ok else fail, t) =
          unfold fs_mkdir_as mkdir_at in ground (arith, h, e) in
        rw q (old_Leads j true e (ground (arith, q)))
    | inl e ↦ elim (Option-cases (alloc_node t)) [
      | inl a ↦
          let q : (fs_mkdir_as t cwd path owner mode).0 ≡ fail =
            unfold fs_mkdir_as mkdir_at in ground (arith, h, e, a) in
          absurd (ground (arith, q))
      | inr ((i, u), a) ↦
          let make : Node → Node = λ n. dir_node n parent leaf owner mode in
          let q : (fs_mkdir_as t cwd path owner mode).1 ≡ set u i (make (node_at u i)) =
            unfold fs_mkdir_as mkdir_at in ground (arith, h, e, a) in
          rw (q ∙ remade u i make a) (new_Leads u i make true e a (λ n. (refl, refl, refl, refl)))
    ]
  ]

  -- In a file system, from a directory in use, for a path that splits into a parent and a leaf
  -- other than `.` and `..`: where `fs_touch_as` returns 0, the path then leads to a file in use in
  -- that parent, whether it was there or has been made.
  pub touch-resolve :
      (owner mode : ℕ)
      → (fs_touch_as t cwd path owner mode).0 ≡ ok
      → Leads (fs_touch_as t cwd path owner mode).1 cwd path parent false
  touch-resolve owner mode done = elim (Option-cases (find_child t parent leaf)) [
    | inr (j, e) ↦
        let q : fs_touch_as t cwd path owner mode ≡ (if (node_at t j).is_dir then fail else ok, t) =
          unfold fs_touch_as touch_at in ground (arith, h, e) in
        rw q (old_Leads j false e (ground (arith, q)))
    | inl e ↦ elim (Option-cases (alloc_node t)) [
      | inl a ↦
          let q : (fs_touch_as t cwd path owner mode).0 ≡ fail =
            unfold fs_touch_as touch_at in ground (arith, h, e, a) in
          absurd (ground (arith, q))
      | inr ((i, u), a) ↦
          let make : Node → Node = λ n. file_node n parent leaf owner mode in
          let q : (fs_touch_as t cwd path owner mode).1 ≡ set u i (make (node_at u i)) =
            unfold fs_touch_as touch_at in ground (arith, h, e, a) in
          rw (q ∙ remade u i make a) (new_Leads u i make false e a (λ n. (refl, refl, refl, refl)))
    ]
  ]
