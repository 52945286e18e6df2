-- ===== src/Fs/Resolve/Leaf.antt =====
-- `resolve_parent_and_leaf`: the parent is what the path before the last slash leads to.
use fur_os.Prelude.{
  ℕ, zero, suc, ◌+◌, ◌≡◌, ◌≢◌, refl, sym, ◌∙◌, ap, ◌⊎◌, true, Option, none, some, List, [], ◌∷◌,
  ◌++◌, arith, take, drop, ◌==◌, if◌then◌else◌, Bool-cases, Option-cases, inl, inr,
}
use fur_os.KString.{byte_at}
use fur_os.KString.Compare.{cstr}
use fur_os.Fs.Node.{Nodes, node_at}
use fur_os.Fs.Find.{is_valid_name}
use fur_os.Fs.Tree.{IsUsed, IsDirectory, IsTree}
use fur_os.Fs.Resolve.{last_slash, parent_of, resolve_parent_and_leaf}
use fur_os.Fs.Resolve.Walk.{
  components, components_cons, walk, start, walk-empty, fs_resolve-eq-walk, fs_resolve-IsUsed,
}

-- No byte of the list is `b`.
abbrev pub HasNo : ℕ → List ℕ → Type 0
HasNo b [] = Unit {0}
HasNo b (c ∷ s) = (c ≢ b) × HasNo b s

pub components-no_slash : (p : List ℕ) → HasNo 0 p → HasNo b'/' p → components p ≡ p ∷ []
unfolding components
components-no_slash [] z h = refl
components-no_slash (c ∷ s) z h = ground (arith, components-no_slash s z.1 h.1)

pub components-append :
    (p q : List ℕ) → HasNo 0 p → components (p ++ b'/' ∷ q) ≡ components p ++ components q
unfolding components
components-append [] q z = refl
components-append (c ∷ s) q z =
    let (n, ns, e) = components_cons s in ground (arith, components-append s q z.1, e)

-- Where the last slash is: nowhere, or before a part without one.
last_slash-cases :
    (p : List ℕ) (i : ℕ) (found : Option ℕ)
    → HasNo 0 p
    → ((last_slash i found p ≡ found) × HasNo b'/' p)
      ⊎ ((k : ℕ) × (last_slash i found p ≡ some (i + k))
          × (p ≡ take k p ++ b'/' ∷ drop (suc k) p)
          × HasNo 0 (take k p)
          × HasNo 0 (drop (suc k) p)
          × HasNo b'/' (drop (suc k) p))
unfolding last_slash
last_slash-cases [] i found z = inl (refl, tt)
last_slash-cases (c ∷ s) i found z =
    elim (last_slash-cases s (suc i) (if c == b'/' then some i else found) z.1) [
      | inl (e, h) ↦ elim (Bool-cases (c == b'/')) [
        | inl y ↦ inr (0, ground (arith, e), ground arith, tt, z.1, h)
        | inr y ↦ inl (ground (arith, e), ((λ q. ground arith), h))
      ]
      | inr (k, e, eq, z0, z1, h) ↦
          inr (suc k, ground (arith, e), ap (λ r. c ∷ r) eq, ((z.0, z0)), z1, h)
    ]

pub cstr-HasNo : (p : List ℕ) → HasNo 0 p → cstr p ≡ p
unfolding cstr
cstr-HasNo [] z = refl
cstr-HasNo (c ∷ s) z = ground (arith, cstr-HasNo s z.1)

-- The components of the directory part of a path that has a slash at `k`, or of none.
pub record IsLeafOf (t : Nodes) (cwd : ℕ) (path : List ℕ) (parent : ℕ) (leaf : List ℕ)
    : Type 0 where
  pub above : List (List ℕ)
  pub split : components path ≡ above ++ leaf ∷ []
  pub leads : walk t (start cwd path) above ≡ some parent
  pub no_zero : HasNo 0 leaf
  pub is_valid : is_valid_name leaf ≡ true

start-take : (cwd : ℕ) (path : List ℕ) (k : ℕ) → k ≢ 0 → start cwd (take k path) ≡ start cwd path
start-take cwd path zero h = absurd (h refl)
start-take cwd [] (suc k) h = refl
start-take cwd (c ∷ s) (suc k) h = refl

parent_of-leads :
    (t : Nodes) (cwd : ℕ) (path rest : List ℕ) (k parent : ℕ)
    → IsTree t
    → IsUsed t cwd
    → path ≡ take k path ++ b'/' ∷ rest
    → parent_of t cwd path k ≡ some parent
    → walk t (start cwd path) (components (take k path)) ≡ some parent
unfolding parent_of
parent_of-leads t cwd [] rest zero parent v u e h = absurd (cc e)
parent_of-leads t cwd (c ∷ s) rest zero parent v u e h =
    walk-empty t (start cwd (c ∷ s)) [] refl ∙ ground (arith, ap (λ r. byte_at r 0) e)
parent_of-leads t cwd path rest (suc k) parent v u e h =
    rw
      (
        ← start-take cwd path (suc k) (omega arith),
        ← fs_resolve-eq-walk t cwd (take (suc k) path) v u,
      )
      (ground arith)

parent_of-IsUsed :
    (t : Nodes) (cwd : ℕ) (path : List ℕ) (k parent : ℕ)
    → IsTree t
    → IsUsed t cwd
    → parent_of t cwd path k ≡ some parent
    → IsUsed t parent
unfolding parent_of
parent_of-IsUsed t cwd path k parent v u h =
    ground (arith, v.root, fs_resolve-IsUsed t cwd (take k path) parent v u)

-- What is returned on the two branches that succeed.
record Found (t : Nodes) (cwd : ℕ) (path : List ℕ) (k parent : ℕ) (leaf : List ℕ) : Type 0 where
  from : parent_of t cwd path k ≡ some parent
  dir : (node_at t parent).is_dir ≡ true
  rest : leaf ≡ drop (suc k) path
  is_valid : is_valid_name leaf ≡ true

found_lem :
    (t : Nodes) (cwd : ℕ) (path : List ℕ) (k parent : ℕ) (leaf : List ℕ)
    → last_slash 0 none path ≡ some k
    → resolve_parent_and_leaf t cwd path ≡ some (parent, leaf)
    → Found t cwd path k parent leaf
unfolding resolve_parent_and_leaf
found_lem t cwd path k parent leaf e h = elim (Option-cases (parent_of t cwd path k)) [
  | inl q ↦ absurd (ground (arith, e, q))
  | inr (c, q) ↦ ground (arith, e, q)
]

plain_lem :
    (t : Nodes) (cwd : ℕ) (path : List ℕ) (parent : ℕ) (leaf : List ℕ)
    → last_slash 0 none path ≡ none
    → resolve_parent_and_leaf t cwd path ≡ some (parent, leaf)
    → (parent ≡ cwd) × (leaf ≡ path) × (is_valid_name path ≡ true)
unfolding resolve_parent_and_leaf
plain_lem t cwd path parent leaf e h = ground (arith, e)

start-no_slash : (cwd : ℕ) (path : List ℕ) → HasNo b'/' path → start cwd path ≡ cwd
start-no_slash cwd [] h = refl
start-no_slash cwd (c ∷ s) h = ground arith

-- In a tree, from a node in use, for a path that holds no terminator: the parent and the leaf that
-- `resolve_parent_and_leaf` finds are the walk over all components but the last, and the last.
pub resolve_parent_and_leaf-IsLeafOf :
    (t : Nodes) (cwd : ℕ) (path : List ℕ) (parent : ℕ) (leaf : List ℕ)
    → IsTree t
    → IsUsed t cwd
    → HasNo 0 path
    → resolve_parent_and_leaf t cwd path ≡ some (parent, leaf)
    → IsLeafOf t cwd path parent leaf
resolve_parent_and_leaf-IsLeafOf t cwd path parent leaf v u z h =
    elim (last_slash-cases path 0 none z) [
      | inl (e, none_in) ↦
          let (p, q, r) = plain_lem t cwd path parent leaf e h in
          rw (p, q)
            (record {
              above = [];
              split = components-no_slash path z none_in;
              leads = unfold walk in ap some (start-no_slash cwd path none_in);
              no_zero = z;
              is_valid = r;
            })
      | inr (k, e, eq, z0, z1, none_in) ↦
          let f : Found t cwd path k parent leaf =
            found_lem t cwd path k parent leaf (ground arith) h in
          record {
            above = components (take k path);
            split =
                ap components eq
                ∙ components-append (take k path) (drop (suc k) path) z0
                ∙ ap (λ r. components (take k path) ++ r)
                    (components-no_slash (drop (suc k) path) z1 none_in
                      ∙ ap (λ r. r ∷ []) (sym f.rest));
            leads = parent_of-leads t cwd path (drop (suc k) path) k parent v u eq f.from;
            no_zero = rw f.rest z1;
            is_valid = f.is_valid;
          }
    ]

-- The parent is a directory in use, if `cwd` is one.
pub resolve_parent_and_leaf-IsDirectory :
    (t : Nodes) (cwd : ℕ) (path : List ℕ) (parent : ℕ) (leaf : List ℕ)
    → IsTree t
    → IsDirectory t cwd
    → resolve_parent_and_leaf t cwd path ≡ some (parent, leaf)
    → IsDirectory t parent
resolve_parent_and_leaf-IsDirectory t cwd path parent leaf v d h =
    elim (Option-cases (last_slash 0 none path)) [
      | inl e ↦ rw (plain_lem t cwd path parent leaf e h).0 d
      | inr (k, e) ↦
          let f : Found t cwd path k parent leaf =
            found_lem t cwd path k parent leaf (ground arith) h in
          record { used = parent_of-IsUsed t cwd path k parent v d.used f.from; is_dir = f.dir }
    ]

pub resolve_parent_and_leaf-valid :
    (t : Nodes) (cwd : ℕ) (path : List ℕ) (parent : ℕ) (leaf : List ℕ)
    → resolve_parent_and_leaf t cwd path ≡ some (parent, leaf)
    → is_valid_name leaf ≡ true
resolve_parent_and_leaf-valid t cwd path parent leaf h =
    elim (Option-cases (last_slash 0 none path)) [
      | inl e ↦ let (p, q, r) = plain_lem t cwd path parent leaf e h in rw q r
      | inr (k, e) ↦ (found_lem t cwd path k parent leaf e h).is_valid
    ]
