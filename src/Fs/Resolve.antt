-- ===== src/Fs/Resolve.antt =====
-- kernel/fs.c: `fs_resolve` and `resolve_parent_and_leaf`.
--
-- The token that `fs_resolve` collects is the list of its bytes; it never holds a terminator.
pub mod Walk
pub mod Leaf
pub mod Stable
pub mod Compose
use fur_os.Prelude.{
  ℕ, suc, ◌+◌, Bool, true, false, not, Option, none, some, List, [], ◌∷◌, ◌++◌, length, take, drop,
  leb, ◌==◌, if◌then◌else◌, codes, ◌>>=◌,
}
use fur_os.KString.{byte_at, kstrlen, str_eq}
use fur_os.Fs.Node.{Nodes, node_at, ret_int, fs_max_name}
use fur_os.Fs.Find.{find_child, is_valid_name}

abbrev pub is_empty : List ℕ → Bool
is_empty [] = true
is_empty (c ∷ s) = false

-- What `fs_resolve` does with a token at a slash or at the end of the path.
unfoldable pub enter : Nodes → ℕ → List ℕ → Option ℕ
enter t current token =
    if is_empty token
    then some current
    else if str_eq token (codes ".")
    then some current
    else if str_eq token (codes "..")
    then some (if current == 0 then current else (node_at t current).parent)
    else find_child t current token

-- The loop of `fs_resolve`, over the bytes that are left of the path.
unfoldable pub resolve_from : Nodes → ℕ → List ℕ → List ℕ → Option ℕ
resolve_from t current token [] = enter t current token
resolve_from t current token (ch ∷ rest) = elim (ch == 0) [
  | true ↦ enter t current token
  | false ↦ elim (ch == b'/') [
    | true ↦ enter t current token >>= λ c. resolve_from t c [] rest
    | false ↦ elim (leb fs_max_name (length token)) [
      | true ↦ none
      | false ↦ resolve_from t current (token ++ ch ∷ []) rest
    ]
  ]
]

unfoldable pub fs_resolve : Nodes → ℕ → List ℕ → Option ℕ
fs_resolve t cwd path =
    if byte_at path 0 == 0
    then some cwd
    else resolve_from t (if byte_at path 0 == b'/' then 0 else cwd) [] path >>= ret_int

-- The loop that leaves in `slash` the index of the last slash; `none` is `(size_t)-1`.
unfoldable pub last_slash : ℕ → Option ℕ → List ℕ → Option ℕ
last_slash i slash [] = slash
last_slash i slash (c ∷ s) = elim (c == 0) [
  | true ↦ slash
  | false ↦ last_slash (suc i) (if c == b'/' then some i else slash) s
]

-- The node of the part before the slash at index `slash`.
unfoldable pub parent_of : Nodes → ℕ → List ℕ → ℕ → Option ℕ
parent_of t cwd path slash =
    if slash == 0
    then some 0
    else if leb 128 slash
    then none
    else fs_resolve t cwd (take slash path)

-- The parent and the leaf, or `none` where the source returns -1.
unfoldable pub resolve_parent_and_leaf : Nodes → ℕ → List ℕ → Option (ℕ × List ℕ)
resolve_parent_and_leaf t cwd path =
    if byte_at path 0 == 0 then none else elim (last_slash 0 none path) [
      | none ↦ if is_valid_name path then some (cwd, path) else none
      | some slash ↦
          if suc slash == kstrlen path
          then none
          else parent_of t cwd path slash >>= λ parent.
              if not (node_at t parent).is_dir
              then none
              else if is_valid_name (drop (suc slash) path)
              then some (parent, drop (suc slash) path)
              else none
    ]
