-- ===== src/Fs/Files/Contents.antt =====
-- What is written is read back.
use fur_os.Prelude.{
  ℕ, zero, suc, ◌≤◌, ◌<◌, ◌≡◌, refl, sym, ◌∙◌, ap, true, false, some, List, [], ◌∷◌, ◌++◌, arith,
  length, take, drop, set, get_or, ltb, if◌then◌else◌, Bool-cases, Option-cases, inl, inr,
  get_or-set_self, set_past,
}
use fur_os.KString.{kmemcpy}
use fur_os.KString.Copy.{kmemcpy-eq, length-kmemcpy}
use fur_os.Fs.Node.{Node, Nodes, node_at, blank, ok, fs_default_file_mode}
use fur_os.Fs.Tree.{IsUsed, IsDirectory, IsTree, node_at-set, used-lt}
use fur_os.Fs.Resolve.{fs_resolve}
use fur_os.Fs.Resolve.Walk.{fs_resolve-IsUsed}
use fur_os.Fs.Resolve.Stable.{SameName, fs_resolve-same}
use fur_os.Fs.Create.{fs_touch}
use fur_os.Fs.Create.Outcome.{fs_touch_as-used}
use fur_os.Fs.Files.{open_for_write, fs_write_file, fs_read_file, write_node, clamp_size}
use fur_os.Fs.Files.Keeps.{open_for_write-IsFileTree}
use fur_os.Fs.Layout.{AllLaidOut}
use fur_os.Fs.Layout.Keeps.{open_for_write-AllLaidOut}
use fur_os.Fs.System.{IsFileSystem}

take-set : (xs : List ℕ) (i v : ℕ) → take i (set xs i v) ≡ take i xs
take-set [] zero v = refl
take-set [] (suc i) v = refl
take-set (x ∷ xs) zero v = refl
take-set (x ∷ xs) (suc i) v = ap (λ r. x ∷ r) (take-set xs i v)

-- The bytes that a write leaves in front of the terminator.
written :
    (n : Node) (source : List ℕ) (size : ℕ)
    → size ≤ length n.contents
    → size ≤ length source
    → take size (write_node n source size).contents ≡ take size source
written n source zero h k = refl
written n source (suc size) h k =
    let q : ltb 0 (suc size) ≡ true = ground arith in
    rw q (
      take-set (kmemcpy n.contents source (suc size)) (suc size) 0
      ∙ ap (take (suc size)) (kmemcpy-eq n.contents source (suc size) h k)
      ∙ exact (suc size) source (drop (suc size) n.contents) k)
  where
    exact : (k : ℕ) (xs ys : List ℕ) → k ≤ length xs → take k (take k xs ++ ys) ≡ take k xs
    exact zero xs ys h = refl
    exact (suc k) [] ys h = absurd (omega arith)
    exact (suc k) (x ∷ xs) ys h = ap (λ r. x ∷ r) (exact k xs ys (omega arith))

SameName-set :
    (t : Nodes) (i : ℕ) (n : Node)
    → SameName (node_at t i) n
    → (j : ℕ) → SameName (node_at t j) (node_at (set t i n) j)
SameName-set t i n s j = elim (Bool-cases (ltb i (length t))) [
  | inl e ↦ rw (node_at-set t i j n (ground arith)) (ground arith)
  | inr e ↦ rw (set_past t i n (ground arith)) (record { used = refl; parent = refl; name = refl })
]

-- What `fs_read_file` finds: the size, and that many bytes of `source`, closed by a zero.
pub record Reads (t : Nodes) (cwd : ℕ) (path source : List ℕ) (size : ℕ) : Type 0 where
  pub contents : List ℕ
  pub found : fs_read_file t cwd path ≡ some (contents, size)
  pub bytes : take size contents ≡ take size source
  pub closed : get_or contents size 0 ≡ 0

Reads-written :
    (u : Nodes) (cwd : ℕ) (path source : List ℕ) (size i : ℕ)
    → IsTree u
    → AllLaidOut u
    → IsUsed u cwd
    → fs_resolve u cwd path ≡ some i
    → (node_at u i).is_dir ≡ false
    → size ≤ length source
    → size < 4096
    → Reads (set u i (write_node (node_at u i) source size)) cwd path source size
Reads-written u cwd path source size i tree l c led file fits small =
    let n : Node = write_node (node_at u i) source size in
    let low : i < 128 = used-lt u i tree.table (fs_resolve-IsUsed u cwd path i tree c led) in
    let here : node_at (set u i n) i ≡ n =
      get_or-set_self u i n blank (omega (arith, tree.table)) in
    let still : fs_resolve (set u i n) cwd path ≡ some i =
      sym (
        fs_resolve-same u (set u i n)
          (SameName-set u i n (record { used = refl; parent = refl; name = refl })) cwd path)
      ∙ led in
    record {
      contents = n.contents;
      found = unfold fs_read_file in ground (arith, still, here);
      bytes = written (node_at u i) source size (omega (arith, (l.at i).contents_size)) fits;
      closed =
          get_or-set_self
            (if ltb 0 size
              then kmemcpy (node_at u i).contents source size
              else (node_at u i).contents)
            size 0 0
            (ground
              (arith, length-kmemcpy (node_at u i).contents source size, (l.at i).contents_size));
    }

module _ (t : Nodes) (cwd : ℕ) (path source : List ℕ) (size : ℕ) (v : IsFileSystem t)
    (d : IsDirectory t cwd) where
  -- The node that is opened is what the path leads to in the table that is left.
  opened :
      (i : ℕ)
      → (open_for_write t cwd path).0 ≡ some i
      → (fs_resolve (open_for_write t cwd path).1 cwd path ≡ some i)
        × IsUsed (open_for_write t cwd path).1 cwd
  opened i h =
      let kept : node_at (fs_touch t cwd path).1 cwd ≡ node_at t cwd =
        unfold fs_touch in
        fs_touch_as-used t cwd path 0 fs_default_file_mode cwd v.files.tree d.used in
      elim (Option-cases (fs_resolve t cwd path)) [
        | inr (j, e) ↦
            let q : open_for_write t cwd path ≡ (some j, t) =
              unfold open_for_write in ground (arith, e) in
            rw q (ground (arith, q, e), d.used)
        | inl e ↦
            let q : (open_for_write t cwd path).1 ≡ (fs_touch t cwd path).1 =
              unfold open_for_write in ground (arith, e) in
            let r : fs_resolve (fs_touch t cwd path).1 cwd path ≡ some i =
              unfold open_for_write in ground (arith, e) in
            rw q (r, ground (arith, kept, d.used))
      ]

  -- In a file system, from a directory in use: where `fs_write_file` returns 0 for a source of at
  -- least the size that is stored, reading the path gives the size, cut to 4095, and that many
  -- bytes of the source, closed by a zero byte.
  pub read-write :
      clamp_size size ≤ length source
      → (fs_write_file t cwd path source size).0 ≡ ok
      → Reads (fs_write_file t cwd path source size).1 cwd path source (clamp_size size)
  read-write fits done =
      let u : Nodes = (open_for_write t cwd path).1 in
      elim (Option-cases (open_for_write t cwd path).0) [
        | inl e ↦ absurd (unfold fs_write_file in ground (arith, e))
        | inr (i, e) ↦ elim (Bool-cases (node_at u i).is_dir) [
          | inl b ↦ absurd (unfold fs_write_file in ground (arith, e, b))
          | inr b ↦
              let n : Node = write_node (node_at u i) source (clamp_size size) in
              let q : (fs_write_file t cwd path source size).1 ≡ set u i n =
                unfold fs_write_file in ground (arith, e, b) in
              rw q (
                Reads-written u cwd path source (clamp_size size) i
                  (open_for_write-IsFileTree t cwd path v.files d).tree
                  (open_for_write-AllLaidOut t cwd path v.layout v.files.tree d) (opened i e).1
                  (opened i e).0 b fits (ground arith))
        ]
      ]
