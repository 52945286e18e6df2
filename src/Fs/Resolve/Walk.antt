-- ===== src/Fs/Resolve/Walk.antt =====
-- `fs_resolve` against a walk over the components of the path.
use fur_os.Prelude.{
  ℕ, ◌≤◌, ◌<◌, ◌≡◌, refl, sym, ◌∙◌, ap, Option, none, some, List, [], ◌∷◌, ◌++◌, arith, length, ltb,
  leb, ◌==◌, if◌then◌else◌, ◌>>=◌, Bool-cases, Option-cases, inl, inr, length-append,
}
use mathlib.Core.List.{append-nil, append_assoc}
use fur_os.KString.{byte_at}
use fur_os.Fs.Node.{Nodes, ret_int, fs_max_name, fs_max_nodes}
use fur_os.Fs.Find.{find_child, is_child}
use fur_os.Fs.Find.Scan.{scan-IsFirst}
use fur_os.Fs.Tree.{IsUsed, IsTree, used-lt}
use fur_os.Fs.Resolve.{enter, resolve_from, fs_resolve}

-- `bytes` in front of the first component.
abbrev pub prepend : List ℕ → List (List ℕ) → List (List ℕ)
prepend bytes [] = bytes ∷ []
prepend bytes (name ∷ names) = (bytes ++ name) ∷ names

-- The pieces between the slashes, up to the terminator.
unfoldable pub components : List ℕ → List (List ℕ)
components [] = [] ∷ []
components (c ∷ s) =
    if c == 0
    then [] ∷ []
    else if c == b'/'
    then [] ∷ components s
    else prepend (c ∷ []) (components s)

-- One component: a name that is too long leads nowhere.
unfoldable pub step : Nodes → ℕ → List ℕ → Option ℕ
step t current name = if ltb fs_max_name (length name) then none else enter t current name

unfoldable pub walk : Nodes → ℕ → List (List ℕ) → Option ℕ
walk t current [] = some current
walk t current (name ∷ names) = step t current name >>= λ c. walk t c names

-- Where the walk begins.
abbrev pub start : ℕ → List ℕ → ℕ
start cwd path = if byte_at path 0 == b'/' then 0 else cwd

pub components_cons :
    (path : List ℕ) → (n : List ℕ) × (ns : List (List ℕ)) × (components path ≡ n ∷ ns)
unfolding components
components_cons [] = ([], [], refl)
components_cons (c ∷ s) =
    let (n, ns, e) = components_cons s in
    elim (Bool-cases (c == 0)) [
      | inl z ↦ ([], [], rw z)
      | inr z ↦ elim (Bool-cases (c == b'/')) [
        | inl y ↦ ([], components s, rw (z, y))
        | inr y ↦ (c ∷ n, ns, rw (z, y, e))
      ]
    ]

prepend-nil : (path : List ℕ) → prepend [] (components path) ≡ components path
prepend-nil path = let (n, ns, e) = components_cons path in rw e

walk_long :
    (t : Nodes) (current : ℕ) (token : List ℕ) (c : ℕ) (path : List ℕ)
    → fs_max_name ≤ length token
    → walk t current (prepend token (prepend (c ∷ []) (components path))) ≡ none
unfolding walk step
walk_long t current token c path h =
    let (n, ns, e) = components_cons path in rw e (ground (arith, length-append token (c ∷ n)))

prepend-prepend :
    (token : List ℕ) (c : ℕ) (path : List ℕ)
    → prepend token (prepend (c ∷ []) (components path))
      ≡ prepend (token ++ c ∷ []) (components path)
prepend-prepend token c path =
    let (n, ns, e) = components_cons path in
    rw e (ap (λ r. r ∷ ns) (sym (append_assoc token (c ∷ []) n)))

after_slash :
    (t : Nodes) (s : List ℕ) (current : ℕ) (token : List ℕ)
    → length token ≤ fs_max_name
    → ((c : ℕ) → resolve_from t c [] s ≡ walk t c (components s))
    → (enter t current token >>= λ c. resolve_from t c [] s) ≡ walk t current (token ∷ components s)
unfolding walk step
after_slash t s current token h rest = elim (Option-cases (enter t current token)) [
  | inl e ↦ ground (arith, e)
  | inr (c, e) ↦ ground (arith, e, rest c)
]

-- The loop, at any token that it holds, is the walk over what is left.
resolve_from-eq-walk :
    (t : Nodes) (path : List ℕ) (current : ℕ) (token : List ℕ)
    → length token ≤ fs_max_name
    → resolve_from t current token path ≡ walk t current (prepend token (components path))
unfolding resolve_from walk step components
resolve_from-eq-walk t [] current token h = ground (arith, append-nil token)
resolve_from-eq-walk t (c ∷ s) current token h = elim (Bool-cases (c == 0)) [
  | inl z ↦ rw z (ground (arith, append-nil token))
  | inr z ↦ elim (Bool-cases (c == b'/')) [
    | inl y ↦
        rw (z, y, append-nil token, resolve_from)
          (after_slash t s current token h
            (λ c. resolve_from-eq-walk t s c [] (omega arith) ∙ ap (walk t c) (prepend-nil s)))
    | inr y ↦ elim (Bool-cases (leb fs_max_name (length token))) [
      | inl l ↦ rw (z, y, l, resolve_from) (sym (walk_long t current token c s (ground arith)))
      | inr l ↦
          rw (z, y, l, resolve_from)
            (resolve_from-eq-walk t s current (token ++ c ∷ [])
                (ground (arith, length-append token (c ∷ [])))
              ∙ ap (walk t current) (sym (prepend-prepend token c s)))
    ]
  ]
]

-- With the empty path the walk stays where it is, as `fs_resolve` does.
pub walk-empty :
    (t : Nodes) (cwd : ℕ) (path : List ℕ)
    → byte_at path 0 ≡ 0
    → walk t cwd (components path) ≡ some cwd
unfolding walk step components enter
walk-empty t cwd [] h = refl
walk-empty t cwd (c ∷ s) h = ground arith

pub enter-IsUsed :
    (t : Nodes) (current : ℕ) (token : List ℕ) (c : ℕ)
    → IsTree t
    → IsUsed t current
    → enter t current token ≡ some c
    → IsUsed t c
unfolding enter find_child
enter-IsUsed t current token c v u h = elim (Option-cases (find_child t current token)) [
  | inl e ↦ ground (arith, v.parents current u)
  | inr (i, e) ↦
      ground
        (arith, v.parents current u, (scan-IsFirst 128 0 (is_child t current token) i e).passes)
]

pub walk-IsUsed :
    (t : Nodes) (names : List (List ℕ)) (current c : ℕ)
    → IsTree t
    → IsUsed t current
    → walk t current names ≡ some c
    → IsUsed t c
unfolding walk step
walk-IsUsed t [] current c v u h = ground arith
walk-IsUsed t (name ∷ names) current c v u h = elim (Option-cases (step t current name)) [
  | inl e ↦ absurd (ground arith)
  | inr (i, e) ↦
      walk-IsUsed t names i c v (enter-IsUsed t current name i v u (ground arith)) (ground arith)
]

pub start-IsUsed :
    (t : Nodes) (cwd : ℕ) (path : List ℕ) → IsTree t → IsUsed t cwd → IsUsed t (start cwd path)
start-IsUsed t cwd path v u = ground (arith, v.root)

-- A node of the table is not a negative `int`.
walk_in_range : (r : Option ℕ) → ((c : ℕ) → r ≡ some c → c < fs_max_nodes) → (r >>= ret_int) ≡ r
walk_in_range none h = refl
walk_in_range (some c) h = ground (arith, h c refl)

-- In a tree, from a node in use, `fs_resolve` walks over the components of the path: from the root
-- if it begins with a slash, else from `cwd`. It fails exactly where the walk does.
pub fs_resolve-eq-walk :
    (t : Nodes) (cwd : ℕ) (path : List ℕ)
    → IsTree t
    → IsUsed t cwd
    → fs_resolve t cwd path ≡ walk t (start cwd path) (components path)
unfolding fs_resolve
fs_resolve-eq-walk t cwd path v u = elim (Bool-cases (byte_at path 0 == 0)) [
  | inl z ↦ rw z (ground (arith, walk-empty t (start cwd path) path))
  | inr z ↦
      rw (z, resolve_from-eq-walk t path (start cwd path) [] (omega arith), prepend-nil path)
        (walk_in_range (walk t (start cwd path) (components path)) (λ c e.
          used-lt t c v.table
            (walk-IsUsed t (components path) (start cwd path) c v (start-IsUsed t cwd path v u) e)))
]

-- What a path leads to is in use.
pub fs_resolve-IsUsed :
    (t : Nodes) (cwd : ℕ) (path : List ℕ) (n : ℕ)
    → IsTree t
    → IsUsed t cwd
    → fs_resolve t cwd path ≡ some n
    → IsUsed t n
fs_resolve-IsUsed t cwd path n v u h =
    walk-IsUsed t (components path) (start cwd path) n v (start-IsUsed t cwd path v u)
      (sym (fs_resolve-eq-walk t cwd path v u) ∙ h)
