-- ===== src/Fs/System/Directories.antt =====
-- The calls of kernel/fs.c leave the directories in place, but for one that is removed.
use fur_os.Prelude.{
  ℕ, false, ◌≡◌, ◌≢◌, refl, List, arith, set, ◌==◌, Bool-cases, Option-cases, inl, inr,
  get_or-set_ne, some, ltb, length, set_past,
}
use fur_os.Fs.Node.{Node, Nodes, node_at, blank, is_node, mode_bits, fs_default_file_mode}
use fur_os.Fs.Tree.{IsDirectory, IsTree, SameShape, node_at-set}
use fur_os.Fs.Resolve.{fs_resolve}
use fur_os.Fs.Create.{fs_mkdir_as, fs_touch_as, fs_touch}
use fur_os.Fs.Create.Outcome.{fs_mkdir_as-used, fs_touch_as-used}
use fur_os.Fs.Files.{open_for_write, fs_write_file, write_node, clamp_size, fs_remove}
use fur_os.Fs.Access.{fs_set_owner, fs_set_mode}

module _ (t : Nodes) (j : ℕ) (d : IsDirectory t j) where
  same_node : (t' : Nodes) → node_at t' j ≡ node_at t j → IsDirectory t' j
  same_node t' e = record { used = ground (arith, e, d.used); is_dir = ground (arith, e, d.is_dir) }

  set_shape : (i : ℕ) (n : Node) → SameShape (node_at t i) n → IsDirectory (set t i n) j
  set_shape i n s = elim (Bool-cases (ltb i (length t))) [
    | inr past ↦ rw (set_past t i n (ground (arith, past))) d
    | inl h ↦
        let at = node_at-set t i j n (ground (arith, h)) in
        elim (Bool-cases (i == j)) [
          | inl y ↦ record {
            used = ground (arith, at, y, s.used, d.used);
            is_dir = ground (arith, at, y, s.is_dir, d.is_dir);
          }
          | inr f ↦ same_node (set t i n) (ground (arith, at, f))
        ]
  ]

module _ (t : Nodes) (j cwd : ℕ) (path : List ℕ) (v : IsTree t) (d : IsDirectory t j) where
  open_for_write-IsDirectory : IsDirectory (open_for_write t cwd path).1 j
  open_for_write-IsDirectory = elim (Option-cases (fs_resolve t cwd path)) [
    | inr (i, e) ↦
        let q : (open_for_write t cwd path).1 ≡ t = unfold open_for_write in ground (arith, e) in
        rw q d
    | inl e ↦
        let q : (open_for_write t cwd path).1 ≡ (fs_touch t cwd path).1 =
          unfold open_for_write in ground (arith, e) in
        rw q (
          same_node t j d (fs_touch t cwd path).1
            (unfold fs_touch in fs_touch_as-used t cwd path 0 fs_default_file_mode j v d.used))
  ]

  pub fs_write_file-IsDirectory :
      (source : List ℕ) (size : ℕ) → IsDirectory (fs_write_file t cwd path source size).1 j
  fs_write_file-IsDirectory source size =
      let t' : Nodes = (open_for_write t cwd path).1 in
      elim (Option-cases (open_for_write t cwd path).0) [
        | inl e ↦
            let q : (fs_write_file t cwd path source size).1 ≡ t' =
              unfold fs_write_file in ground (arith, e) in
            rw q open_for_write-IsDirectory
        | inr (i, e) ↦ elim (Bool-cases (node_at t' i).is_dir) [
          | inl b ↦
              let q : (fs_write_file t cwd path source size).1 ≡ t' =
                unfold fs_write_file in ground (arith, e, b) in
              rw q open_for_write-IsDirectory
          | inr b ↦
              let n : Node = write_node (node_at t' i) source (clamp_size size) in
              let q : (fs_write_file t cwd path source size).1 ≡ set t' i n =
                unfold fs_write_file in ground (arith, e, b) in
              rw q (
                set_shape t' j open_for_write-IsDirectory i n
                  (record { used = refl; is_dir = refl; parent = refl }))
        ]
      ]

  pub fs_remove-IsDirectory :
      fs_resolve t cwd path ≢ some j → IsDirectory (fs_remove t cwd path).1 j
  fs_remove-IsDirectory other = elim (Option-cases (fs_resolve t cwd path)) [
    | inl e ↦ let q : (fs_remove t cwd path).1 ≡ t = unfold fs_remove in ground (arith, e) in rw q d
    | inr (i, e) ↦
        let n : Node = record (node_at t i) { used = false } in
        let ne : i ≢ j = λ h. other (ground (arith, e, h)) in
        let kept : node_at (set t i n) j ≡ node_at t j = get_or-set_ne t i j n blank ne in
        same_node t j d (fs_remove t cwd path).1 (unfold fs_remove in ground (arith, e, kept))
  ]

  pub fs_mkdir_as-IsDirectory :
      (owner mode : ℕ) → IsDirectory (fs_mkdir_as t cwd path owner mode).1 j
  fs_mkdir_as-IsDirectory owner mode =
      same_node t j d (fs_mkdir_as t cwd path owner mode).1
        (fs_mkdir_as-used t cwd path owner mode j v d.used)

  pub fs_touch_as-IsDirectory :
      (owner mode : ℕ) → IsDirectory (fs_touch_as t cwd path owner mode).1 j
  fs_touch_as-IsDirectory owner mode =
      same_node t j d (fs_touch_as t cwd path owner mode).1
        (fs_touch_as-used t cwd path owner mode j v d.used)

module _ (t : Nodes) (j node value : ℕ) (d : IsDirectory t j) where
  pub fs_set_owner-IsDirectory : IsDirectory (fs_set_owner t node value).1 j
  fs_set_owner-IsDirectory = elim (Bool-cases (is_node t node)) [
    | inr f ↦ unfold fs_set_owner in rw f d
    | inl y ↦
        let n : Node = record (node_at t node) { owner = value } in
        let k = set_shape t j d node n (record { used = refl; is_dir = refl; parent = refl }) in
        unfold fs_set_owner in rw y k
  ]

  pub fs_set_mode-IsDirectory : IsDirectory (fs_set_mode t node value).1 j
  fs_set_mode-IsDirectory = elim (Bool-cases (is_node t node)) [
    | inr f ↦ unfold fs_set_mode in rw f d
    | inl y ↦
        let n : Node = record (node_at t node) { mode = mode_bits value } in
        let k = set_shape t j d node n (record { used = refl; is_dir = refl; parent = refl }) in
        unfold fs_set_mode in rw y k
  ]
