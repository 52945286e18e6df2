-- ===== src/Fs/MakePath.antt =====
-- kernel/fs.c: `fs_make_path`.
use mathlib.Core.List.{reverse}
use fur_os.Prelude.{
  ℕ, zero, suc, ◌+◌, true, false, Option, none, some, List, [], ◌∷◌, ◌++◌, take, drop, set, ltb,
  leb, ◌==◌, if◌then◌else◌, ◌>>=◌,
}
use fur_os.KString.{kstrlen, kmemcpy}
use fur_os.Fs.Node.{Nodes, node_at, is_node, fs_max_nodes}

-- `while (node != 0 && depth < FS_MAX_NODES)`: the stack from its bottom, with the rounds that
-- `depth` leaves.
unfoldable pub ancestors : ℕ → Nodes → ℕ → List ℕ
ancestors zero t node = []
ancestors (suc k) t node = elim (node == 0) [
  | true ↦ []
  | false ↦ node ∷ ancestors k t (node_at t node).parent
]

-- kmemcpy(out + pos, src, len)
abbrev pub copy_at : List ℕ → ℕ → List ℕ → ℕ → List ℕ
copy_at out pos src len = take pos out ++ kmemcpy (drop pos out) src len

-- The loop that pops the stack: the nodes from its top, the buffer and `pos`.
unfoldable pub put_names : Nodes → ℕ → List ℕ → List ℕ → ℕ → Option (List ℕ × ℕ)
put_names t out_size [] out pos = some (out, pos)
put_names t out_size (node ∷ rest) out pos =
    let name = (node_at t node).name in
    let len = kstrlen name in
    let out' = copy_at out pos name len in
    elim (leb out_size (pos + len + 1)) [
      | true ↦ none
      | false ↦ elim rest [
        | [] ↦ some (out', pos + len)
        | n ∷ r ↦ put_names t out_size rest (set out' (pos + len) b'/') (pos + len + 1)
      ]
    ]

-- The buffer that is left in `out`, which has `out_size` bytes; `none` where -1 is returned.
unfoldable pub fs_make_path : Nodes → ℕ → List ℕ → ℕ → Option (List ℕ)
fs_make_path t node out out_size =
    if out_size == 0
    then none
    else if is_node t node
    then (if node == 0
        then (if ltb out_size 2 then none else some (set (set out 0 b'/') 1 0))
        else if leb out_size 1
        then none
        else put_names t out_size (reverse (ancestors fs_max_nodes t node)) (set out 0 b'/') 1
          >>= λ done. some (set done.0 done.1 0))
    else none
