-- ===== src/Fs/Layout/Keeps.antt =====
-- kernel/fs.c: every operation keeps the arrays of the nodes well formed.
use fur_os.Prelude.{
  ℕ, ◌<◌, ◌^◌, ◌≡◌, Bool, true, false, List, arith, set, ◌==◌, ◌&&◌, if◌then◌else◌, Bool-cases,
  Option-cases, inl, inr, replicate, get_or-replicate, length-replicate, codes,
}
use fur_os.KString.{kstrlen}
use fur_os.KString.Copy.{length-kstrcpy, kstrcpy-last}
use fur_os.Fs.Node.{
  Node, Nodes, node_at, is_node, blank, zeros, make_root, fs_init, Status, mode_bits,
  fs_default_file_mode,
}
use fur_os.Fs.Find.{reset_node}
use fur_os.Fs.Tree.{IsTree, IsDirectory, used-lt}
use fur_os.Fs.Resolve.{fs_resolve, resolve_parent_and_leaf}
use fur_os.Fs.Resolve.Leaf.{resolve_parent_and_leaf-IsDirectory, resolve_parent_and_leaf-valid}
use fur_os.Fs.Create.{dir_node, file_node, mkdir_at, touch_at, fs_mkdir_as, fs_touch_as, fs_touch}
use fur_os.Fs.Create.Outcome.{Outcome, kept, added, mkdir_at-Outcome, touch_at-Outcome}
use fur_os.Fs.Files.{write_node, clamp_size, open_for_write, fs_write_file, fs_remove, is_occupied}
use fur_os.Fs.Access.{fs_set_owner, fs_set_mode}
use fur_os.Fs.Layout.{
  IsLaidOut, AllLaidOut, set-AllLaidOut, reset-IsLaidOut, dir_node-IsLaidOut, file_node-IsLaidOut,
  write_node-IsLaidOut,
}

-- A zeroed node.
pub blank-IsLaidOut : IsLaidOut blank
unfolding zeros
blank-IsLaidOut = record {
  name_size = length-replicate {A = ℕ} 32 0;
  name_end = get_or-replicate {A = ℕ} 32 31 0;
  contents_size = length-replicate {A = ℕ} 4096 0;
  contents_end = get_or-replicate {A = ℕ} 4096 0 0;
  size = omega arith;
  parent = omega arith;
  owner = omega arith;
  mode = omega arith;
}

pub make_root-IsLaidOut : (n : Node) → IsLaidOut n → IsLaidOut (make_root n)
unfolding make_root kstrlen
make_root-IsLaidOut n v = record {
  name_size = ground (arith, length-kstrcpy n.name (codes "/"), v.name_size);
  name_end = kstrcpy-last n.name (codes "/") 31 v.name_end (omega arith) v.name_size;
  contents_size = v.contents_size;
  contents_end = v.contents_end;
  size = v.size;
  parent = omega arith;
  owner = omega arith;
  mode = omega arith;
}

pub fs_init-AllLaidOut : AllLaidOut fs_init
unfolding fs_init make_root
fs_init-AllLaidOut =
    set-AllLaidOut (replicate 128 blank) 0 (make_root blank)
      (record { at = λ i. rw (get_or-replicate 128 i blank) blank-IsLaidOut })
      (make_root-IsLaidOut blank blank-IsLaidOut)

Outcome-AllLaidOut :
    (t : Nodes) (parent : ℕ) (leaf : List ℕ) (make : Node → Node) {s : Status} {t' : Nodes}
    → AllLaidOut t
    → ((n : Node) → IsLaidOut n → IsLaidOut (make n))
    → Outcome t parent leaf make s t'
    → AllLaidOut t'
Outcome-AllLaidOut t parent leaf make v m (kept s) = v
Outcome-AllLaidOut t parent leaf make v m (added i e first) =
    set-AllLaidOut t i (make (reset_node (node_at t i))) v
      (m (reset_node (node_at t i)) (reset-IsLaidOut (node_at t i) (v.at i)))

module _ (t : Nodes) (cwd : ℕ) (path : List ℕ) (v : AllLaidOut t) (w : IsTree t)
    (d : IsDirectory t cwd) where
  module _ (owner mode : ℕ) (o : owner < 2 ^ 16) where
    pub fs_mkdir_as-AllLaidOut : AllLaidOut (fs_mkdir_as t cwd path owner mode).1
    fs_mkdir_as-AllLaidOut = elim (Option-cases (resolve_parent_and_leaf t cwd path)) [
      | inl e ↦
          let q : (fs_mkdir_as t cwd path owner mode).1 ≡ t =
            unfold fs_mkdir_as in ground (arith, e) in
          rw q v
      | inr ((parent, leaf), e) ↦
          let q : fs_mkdir_as t cwd path owner mode ≡ mkdir_at t parent leaf owner mode =
            unfold fs_mkdir_as in ground (arith, e) in
          let p : IsDirectory t parent =
            resolve_parent_and_leaf-IsDirectory t cwd path parent leaf w d e in
          rw q (
            Outcome-AllLaidOut t parent leaf (λ n. dir_node n parent leaf owner mode) v
              (λ n h.
                dir_node-IsLaidOut n h parent owner mode leaf (used-lt t parent w.table p.used) o
                  (resolve_parent_and_leaf-valid t cwd path parent leaf e))
              (mkdir_at-Outcome t parent leaf owner mode w))
    ]

    pub fs_touch_as-AllLaidOut : AllLaidOut (fs_touch_as t cwd path owner mode).1
    fs_touch_as-AllLaidOut = elim (Option-cases (resolve_parent_and_leaf t cwd path)) [
      | inl e ↦
          let q : (fs_touch_as t cwd path owner mode).1 ≡ t =
            unfold fs_touch_as in ground (arith, e) in
          rw q v
      | inr ((parent, leaf), e) ↦
          let q : fs_touch_as t cwd path owner mode ≡ touch_at t parent leaf owner mode =
            unfold fs_touch_as in ground (arith, e) in
          let p : IsDirectory t parent =
            resolve_parent_and_leaf-IsDirectory t cwd path parent leaf w d e in
          rw q (
            Outcome-AllLaidOut t parent leaf (λ n. file_node n parent leaf owner mode) v
              (λ n h.
                file_node-IsLaidOut n h parent owner mode leaf (used-lt t parent w.table p.used) o
                  (resolve_parent_and_leaf-valid t cwd path parent leaf e))
              (touch_at-Outcome t parent leaf owner mode w))
    ]

  pub open_for_write-AllLaidOut : AllLaidOut (open_for_write t cwd path).1
  open_for_write-AllLaidOut =
      let touched : AllLaidOut (fs_touch t cwd path).1 =
        unfold fs_touch in fs_touch_as-AllLaidOut 0 fs_default_file_mode (omega arith) in
      elim (Option-cases (fs_resolve t cwd path)) [
        | inr (i, e) ↦
            let q : (open_for_write t cwd path).1 ≡ t =
              unfold open_for_write in ground (arith, e) in
            rw q v
        | inl e ↦
            let q : (open_for_write t cwd path).1 ≡ (fs_touch t cwd path).1 =
              unfold open_for_write in ground (arith, e) in
            rw q touched
      ]

  pub fs_write_file-AllLaidOut :
      (source : List ℕ) (size : ℕ) → AllLaidOut (fs_write_file t cwd path source size).1
  fs_write_file-AllLaidOut source size =
      let t' : Nodes = (open_for_write t cwd path).1 in
      elim (Option-cases (open_for_write t cwd path).0) [
        | inl e ↦
            let q : (fs_write_file t cwd path source size).1 ≡ t' =
              unfold fs_write_file in ground (arith, e) in
            rw q open_for_write-AllLaidOut
        | inr (i, e) ↦ elim (Bool-cases (node_at t' i).is_dir) [
          | inl b ↦
              let q : (fs_write_file t cwd path source size).1 ≡ t' =
                unfold fs_write_file in ground (arith, e, b) in
              rw q open_for_write-AllLaidOut
          | inr b ↦
              let n : Node = write_node (node_at t' i) source (clamp_size size) in
              let q : (fs_write_file t cwd path source size).1 ≡ set t' i n =
                unfold fs_write_file in ground (arith, e, b) in
              rw q (
                set-AllLaidOut t' i n open_for_write-AllLaidOut (
                  write_node-IsLaidOut (node_at t' i) (open_for_write-AllLaidOut.at i) source
                    (clamp_size size) (ground arith)))
        ]
      ]

-- The rest only rewrite numbers of one node.
numbers-IsLaidOut :
    (n : Node) (used : Bool) (owner mode : ℕ)
    → IsLaidOut n
    → owner < 2 ^ 16
    → mode < 512
    → IsLaidOut (record n { used = used; owner = owner; mode = mode })
numbers-IsLaidOut n used owner mode v o m = record {
  name_size = v.name_size;
  name_end = v.name_end;
  contents_size = v.contents_size;
  contents_end = v.contents_end;
  size = v.size;
  parent = v.parent;
  owner = o;
  mode = m;
}

module _ (t : Nodes) (v : AllLaidOut t) where
  numbers :
      (t' : Nodes) (i : ℕ) (used : Bool) (owner mode : ℕ)
      → owner < 2 ^ 16
      → mode < 512
      → t' ≡ set t i (record (node_at t i) { used = used; owner = owner; mode = mode })
      → AllLaidOut t'
  numbers t' i used owner mode o m q = rw q (
      set-AllLaidOut t i (record (node_at t i) { used = used; owner = owner; mode = mode }) v
        (numbers-IsLaidOut (node_at t i) used owner mode (v.at i) o m))

  pub fs_remove-AllLaidOut : (cwd : ℕ) (path : List ℕ) → AllLaidOut (fs_remove t cwd path).1
  fs_remove-AllLaidOut cwd path = elim (Option-cases (fs_resolve t cwd path)) [
    | inl e ↦ let q : (fs_remove t cwd path).1 ≡ t = unfold fs_remove in ground (arith, e) in rw q v
    | inr (i, e) ↦
        elim (Bool-cases (if i == 0 then true else (node_at t i).is_dir && is_occupied t i)) [
          | inl b ↦
              let q : (fs_remove t cwd path).1 ≡ t = unfold fs_remove in ground (arith, e, b) in
              rw q v
          | inr b ↦
              numbers (fs_remove t cwd path).1 i false (node_at t i).owner (node_at t i).mode
                (v.at i).owner (v.at i).mode (unfold fs_remove in ground (arith, e, b))
        ]
  ]

  pub fs_set_owner-AllLaidOut :
      (i owner : ℕ) → owner < 2 ^ 16 → AllLaidOut (fs_set_owner t i owner).1
  fs_set_owner-AllLaidOut i owner o = elim (Bool-cases (is_node t i)) [
    | inr e ↦
        let q : (fs_set_owner t i owner).1 ≡ t = unfold fs_set_owner in ground (arith, e) in rw q v
    | inl e ↦
        numbers (fs_set_owner t i owner).1 i (node_at t i).used owner (node_at t i).mode o
          (v.at i).mode (unfold fs_set_owner in ground (arith, e))
  ]

  pub fs_set_mode-AllLaidOut : (i mode : ℕ) → AllLaidOut (fs_set_mode t i mode).1
  fs_set_mode-AllLaidOut i mode = elim (Bool-cases (is_node t i)) [
    | inr e ↦
        let q : (fs_set_mode t i mode).1 ≡ t = unfold fs_set_mode in ground (arith, e) in rw q v
    | inl e ↦
        numbers (fs_set_mode t i mode).1 i (node_at t i).used (node_at t i).owner (mode_bits mode)
          (v.at i).owner (omega arith) (unfold fs_set_mode in ground (arith, e))
  ]
