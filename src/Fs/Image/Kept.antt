-- ===== src/Fs/Image/Kept.antt =====
-- kernel/fs.c: a new file and a write leave names and contents that are bytes.
use fur_os.Prelude.{
  ℕ, zero, suc, ◌<◌, ◌≡◌, not, Option, none, some, List, [], ◌∷◌, arith, length, set, drop, ltb,
  ◌==◌, branch, ◌>>=◌, option_branch, subst, Bool-cases, inl, inr, set_past,
}
use fur_os.KString.{kstrlen, kstrcpy, byte_at}
use fur_os.KString.Bytes.{
  IsBytes, cons-IsBytes, head-IsBytes, tail-IsBytes, drop-IsBytes, kmemcpy-IsBytes,
}
use fur_os.Fs.Node.{Node, Nodes, node_at, Status, status_branch}
use fur_os.Fs.Find.{find_child, alloc_node, reset_node, is_valid_name, is_free}
use fur_os.Fs.Find.{scan}
use fur_os.Fs.Tree.{node_at-set}
use fur_os.Fs.Resolve.{fs_resolve, parent_of, last_slash, resolve_parent_and_leaf}
use fur_os.Fs.Create.{file_node, touch_at, fs_touch_as, fs_touch}
use fur_os.Fs.Files.{write_node, clamp_size, open_for_write, fs_write_file}
use fur_os.Fs.Image.Bytes.{HasBytes}

set-IsBytes : (bs : List ℕ) (i b : ℕ) → IsBytes bs → b < 256 → IsBytes (set bs i b)
set-IsBytes [] i b h lt = h
set-IsBytes (c ∷ bs) zero b h lt = cons-IsBytes b bs lt (tail-IsBytes c bs h)
set-IsBytes (c ∷ bs) (suc i) b h lt =
    cons-IsBytes c (set bs i b) (head-IsBytes c bs h) (set-IsBytes bs i b (tail-IsBytes c bs h) lt)

kstrcpy-IsBytes : (dst src : List ℕ) → IsBytes dst → IsBytes src → IsBytes (kstrcpy dst src)
unfolding kstrcpy
kstrcpy-IsBytes [] src h k = h
kstrcpy-IsBytes (d ∷ dst) [] h k = cons-IsBytes 0 dst (omega arith) (tail-IsBytes d dst h)
kstrcpy-IsBytes (d ∷ dst) (c ∷ src) h k =
    let ih : IsBytes (kstrcpy dst src) =
      kstrcpy-IsBytes dst src (tail-IsBytes d dst h) (tail-IsBytes c src k) in
    branch IsBytes (c == 0) (λ e. cons-IsBytes 0 dst (omega arith) (tail-IsBytes d dst h))
      (λ e. cons-IsBytes c (kstrcpy dst src) (head-IsBytes c src k) ih)

-- A node with bytes for its name and its contents.
record IsPlain (n : Node) : Type 0 where
  name : IsBytes n.name
  contents : IsBytes n.contents

set-HasBytes : (t : Nodes) (i : ℕ) (n : Node) → HasBytes t → IsPlain n → HasBytes (set t i n)
set-HasBytes t i n v h = elim (Bool-cases (ltb i (length t))) [
  | inr e ↦ rw (set_past t i n (ground arith)) v
  | inl e ↦ record { name = λ j. (at j).name; contents = λ j. (at j).contents }
]
  where
    at : (j : ℕ) → IsPlain (node_at (set t i n) j)
    at j = elim (Bool-cases (ltb i (length t))) [
      | inr e ↦
          rw (set_past t i n (ground arith)) (record { name = v.name j; contents = v.contents j })
      | inl e ↦ elim (Bool-cases (i == j)) [
        | inl q ↦ rw (node_at-set t i j n (ground arith), q) h
        | inr q ↦
            rw (node_at-set t i j n (ground arith), q)
              (record { name = v.name j; contents = v.contents j })
      ]
    ]

reset-IsPlain : (n : Node) → IsPlain n → IsPlain (reset_node n)
reset-IsPlain n v = record {
  name = set-IsBytes n.name 0 0 v.name (omega arith);
  contents = set-IsBytes n.contents 0 0 v.contents (omega arith);
}

-- What a call returns, where it returns anything.
abbrev Any {ℓ κ} : {A : Type ℓ} → (A → Type κ) → Option A → Type κ
Any P none = Unit
Any P (some a) = P a

bind_Any {ℓ κ μ} :
    {A : Type ℓ} {B : Type κ} (P : B → Type μ) (o : Option A) (f : A → Option B)
    → ((a : A) → Any P (f a))
    → Any P (o >>= f)
bind_Any P none f h = tt
bind_Any P (some a) f h = h a

module _ (t : Nodes) (v : HasBytes t) where
  plain : (i : ℕ) → IsPlain (node_at t i)
  plain i = record { name = v.name i; contents = v.contents i }

  alloc_node-HasBytes : (r : ℕ × Nodes) → alloc_node t ≡ some r → HasBytes r.1
  alloc_node-HasBytes r h =
      let P : Option (ℕ × Nodes) → Type 0 = Any (λ r. HasBytes r.1) in
      let any : P (alloc_node t) =
        unfold alloc_node in
        bind_Any (λ r. HasBytes r.1) (scan 127 1 (is_free t)) _
          (λ i.
            set-HasBytes t i (reset_node (node_at t i)) v
              (reset-IsPlain (node_at t i) (plain i))) in
      subst P h any

module _ (t : Nodes) (v : HasBytes t) (parent : ℕ) (leaf : List ℕ) (b : IsBytes leaf)
    (owner mode : ℕ) where
  touch_at-HasBytes : HasBytes (touch_at t parent leaf owner mode).1
  unfolding touch_at
  touch_at-HasBytes =
      let P : Status × Nodes → Type 0 = λ r. HasBytes r.1 in
      option_branch P (find_child t parent leaf)
        (λ e.
          option_branch P (alloc_node t) (λ e. v)
            (λ r e.
              let w : HasBytes r.1 = alloc_node-HasBytes t v r e in
              let n : Node = node_at r.1 r.0 in
              set-HasBytes r.1 r.0 (file_node n parent leaf owner mode) w (record {
                name = kstrcpy-IsBytes n.name leaf (w.name r.0) b;
                contents = set-IsBytes n.contents 0 0 (w.contents r.0) (omega arith);
              })))
        (λ i e. v)

resolve_parent_and_leaf-IsBytes :
    (t : Nodes) (cwd : ℕ) (path : List ℕ) (r : ℕ × List ℕ)
    → IsBytes path
    → resolve_parent_and_leaf t cwd path ≡ some r
    → IsBytes r.1
resolve_parent_and_leaf-IsBytes t cwd path r b h =
    let P : Option (ℕ × List ℕ) → Type 0 = Any (λ r. IsBytes r.1) in
    let any : P (resolve_parent_and_leaf t cwd path) =
      unfold resolve_parent_and_leaf in
      branch P (byte_at path 0 == 0) (λ y. tt)
        (λ n.
          option_branch P (last_slash 0 none path)
            (λ e. branch P (is_valid_name path) (λ y. b) (λ n. tt))
            (λ slash e.
              branch P (suc slash == kstrlen path) (λ y. tt)
                (λ n.
                  bind_Any (λ r. IsBytes r.1) (parent_of t cwd path slash) _
                    (λ parent.
                      branch P (not (node_at t parent).is_dir) (λ y. tt)
                        (λ n.
                          branch P (is_valid_name (drop (suc slash) path))
                            (λ y. drop-IsBytes (suc slash) path b) (λ n. tt)))))) in
    subst P h any

module _ (t : Nodes) (v : HasBytes t) (cwd : ℕ) (path : List ℕ) (b : IsBytes path) where
  pub fs_touch-HasBytes : HasBytes (fs_touch t cwd path).1
  unfolding fs_touch fs_touch_as
  fs_touch-HasBytes =
      option_branch (λ (r : Status × Nodes). HasBytes r.1) (resolve_parent_and_leaf t cwd path)
        (λ e. v)
        (λ r e.
          touch_at-HasBytes t v r.0 r.1 (resolve_parent_and_leaf-IsBytes t cwd path r b e) 0 0o644)

  open_for_write-HasBytes : HasBytes (open_for_write t cwd path).1
  unfolding open_for_write
  open_for_write-HasBytes =
      let P : Option ℕ × Nodes → Type 0 = λ r. HasBytes r.1 in
      option_branch P (fs_resolve t cwd path)
        (λ e.
          status_branch P (fs_touch t cwd path).0 (λ e. fs_touch-HasBytes) (λ e. fs_touch-HasBytes))
        (λ i e. v)

  pub fs_write_file-HasBytes :
      (source : List ℕ) (size : ℕ)
      → IsBytes source
      → HasBytes (fs_write_file t cwd path source size).1
  unfolding fs_write_file
  fs_write_file-HasBytes source size s =
      let P : Status × Nodes → Type 0 = λ r. HasBytes r.1 in
      let o = open_for_write t cwd path in
      let w : HasBytes o.1 = open_for_write-HasBytes in
      option_branch P o.0 (λ e. w)
        (λ i e.
          branch P (node_at o.1 i).is_dir (λ y. w)
            (λ n.
              let old : Node = node_at o.1 i in
              let m : ℕ = clamp_size size in
              set-HasBytes o.1 i (write_node old source m) w (record {
                name = w.name i;
                contents =
                    set-IsBytes _ m 0
                      (branch IsBytes (ltb 0 m)
                        (λ y. kmemcpy-IsBytes old.contents source m (w.contents i) s)
                        (λ n. w.contents i))
                      (omega arith);
              })))
