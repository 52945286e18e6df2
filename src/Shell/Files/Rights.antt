-- ===== src/Shell/Files/Rights.antt =====
-- kernel/shell.c: what the commands on files may change for a user.
use fur_os.Prelude.{
  ℕ, ◌≡◌, ◌≢◌, refl, true, false, ◌&&◌, not, List, arith, length, ltb, ◌==◌, Bool-cases, branch,
  option_branch, inl, inr, ◌⊎◌, get_or-set_ne,
}
use fur_os.Fs.Node.{
  Nodes, node_at, blank, Status, ok, fail, is_node, fs_is_dir, fs_default_dir_mode,
  fs_default_file_mode,
}
use fur_os.Fs.Tree.{IsUsed, IsTree}
use fur_os.Fs.Resolve.{fs_resolve}
use fur_os.Fs.Create.{fs_mkdir_as, fs_touch_as}
use fur_os.Fs.Create.New.{IsNew, fs_mkdir_as-IsNew, fs_touch_as-IsNew}
use fur_os.Fs.Access.{fs_check_access, fs_get_owner, fs_set_mode}
use fur_os.Shell.State.{Shell}
use fur_os.Shell.Numbers.{parse_mode_octal}
use fur_os.Shell.Packages.{arg}
use fur_os.Shell.Access.{ensure_parent_writable}
use fur_os.Shell.Access.Parent.{ensure_parent_writable_sound, ensure_parent_writable-nodes}
use fur_os.Shell.Files.{cmd_mkdir, cmd_touch, cmd_chmod, reported, owner_of}

module _ (s : Shell) (uid j : ℕ) (v : IsTree s.nodes)
    (free : (node_at s.nodes j).used ≡ false) where
  -- If the node has come into use, the user may write to its parent and enter it.
  unfoldable pub Rightful : Shell → Type 0
  Rightful t = IsUsed t.nodes j → fs_check_access s.nodes (node_at t.nodes j).parent uid 3 ≡ true

  same-Rightful : (t : Shell) → t.nodes ≡ s.nodes → Rightful t
  unfolding Rightful
  same-Rightful t e u = absurd (ground (arith, e, u, free))

  reported-Rightful :
      (result : Status × Nodes) (message : List (List ℕ)) (path : List ℕ)
      → (ensure_parent_writable s path uid).0 ≡ true
      → (IsUsed result.1 j → IsNew s.nodes s.shell_cwd path (node_at result.1 j).parent)
      → Rightful (reported s result message)
  unfolding Rightful
  reported-Rightful (status, t) message path w new = go status
    where
      sound : IsUsed t j → fs_check_access s.nodes (node_at t j).parent uid 3 ≡ true
      sound u =
          ensure_parent_writable_sound s path uid (node_at t j).parent (new u).leaf w (new u).found

      go :
          (status : Status)
          → IsUsed (reported s (status, t) message).nodes j
          → fs_check_access s.nodes (node_at (reported s (status, t) message).nodes j).parent uid 3
            ≡ true
      go ok u = sound u
      go fail u = sound u

  -- In a tree: a node that `mkdir` brings into use has a parent that the user may write to and
  -- enter, as `fs_check_access` judged it before the command.
  pub cmd_mkdir-Rightful : (argv : List (List ℕ)) → Rightful (cmd_mkdir s argv uid)
  unfolding cmd_mkdir
  cmd_mkdir-Rightful argv =
      branch Rightful (ltb (length argv) 2) (λ y. same-Rightful _ refl)
        (λ n.
          option_branch Rightful (fs_resolve s.nodes s.shell_cwd (arg argv 1))
            (λ e.
              branch Rightful (ensure_parent_writable s (arg argv 1) uid).0
                (λ w.
                  reported-Rightful
                    (fs_mkdir_as s.nodes s.shell_cwd (arg argv 1) uid fs_default_dir_mode) _
                    (arg argv 1) w
                    (fs_mkdir_as-IsNew s.nodes s.shell_cwd (arg argv 1) uid fs_default_dir_mode j v
                      free))
                (λ w. same-Rightful _ (ensure_parent_writable-nodes s (arg argv 1) uid)))
            (λ node e.
              branch Rightful (fs_is_dir s.nodes node) (λ y. same-Rightful _ refl)
                (λ y. same-Rightful _ refl)))

  -- The same for `touch`.
  pub cmd_touch-Rightful : (argv : List (List ℕ)) → Rightful (cmd_touch s argv uid)
  unfolding cmd_touch
  cmd_touch-Rightful argv =
      branch Rightful (ltb (length argv) 2) (λ y. same-Rightful _ refl)
        (λ n.
          option_branch Rightful (fs_resolve s.nodes s.shell_cwd (arg argv 1))
            (λ e.
              branch Rightful (ensure_parent_writable s (arg argv 1) uid).0
                (λ w.
                  reported-Rightful
                    (fs_touch_as s.nodes s.shell_cwd (arg argv 1) uid fs_default_file_mode) _
                    (arg argv 1) w
                    (fs_touch_as-IsNew s.nodes s.shell_cwd (arg argv 1) uid fs_default_file_mode j v
                      free))
                (λ w. same-Rightful _ (ensure_parent_writable-nodes s (arg argv 1) uid)))
            (λ node e.
              branch Rightful (fs_is_dir s.nodes node) (λ y. same-Rightful _ refl)
                (λ y.
                  branch Rightful (not (fs_check_access s.nodes node uid 2))
                    (λ z. same-Rightful _ refl) (λ z. same-Rightful _ refl))))

-- In a tree: a node that `mkdir` or `touch` brings into use has a parent that the user may write to
-- and enter, as `fs_check_access` judged it before the command.
pub new_entry_rights :
    (s : Shell) (argv : List (List ℕ)) (uid j : ℕ) (t : Shell)
    → IsTree s.nodes
    → (t ≡ cmd_mkdir s argv uid) ⊎ (t ≡ cmd_touch s argv uid)
    → (node_at s.nodes j).used ≡ false
    → IsUsed t.nodes j
    → fs_check_access s.nodes (node_at t.nodes j).parent uid 3 ≡ true
unfolding Rightful
new_entry_rights s argv uid j t v (inl e) free u =
    rw e (cmd_mkdir-Rightful s uid j v free argv (rw e at u))
new_entry_rights s argv uid j t v (inr e) free u =
    rw e (cmd_touch-Rightful s uid j v free argv (rw e at u))

fs_set_mode-other :
    (t : Nodes) (node mode j : ℕ) → node ≢ j → node_at (fs_set_mode t node mode).1 j ≡ node_at t j
unfolding fs_set_mode
fs_set_mode-other t node mode j n = elim (Bool-cases (is_node t node)) [
  | inl y ↦ rw y (get_or-set_ne t node j _ blank n)
  | inr f ↦ rw f refl
]

set_mode_by :
    (t : Nodes) (node mode uid j : ℕ)
    → (node_at t j).owner ≢ uid
    → (owner_of t node == uid) ≡ true
    → node_at (fs_set_mode t node mode).1 j ≡ node_at t j
set_mode_by t node mode uid j other h = elim (Bool-cases (node == j)) [
  | inr n ↦ fs_set_mode-other t node mode j (λ e. ground (arith, n, e))
  | inl y ↦
      let e : node ≡ j = ground (arith, y) in
      elim (Bool-cases (is_node t node)) [
        | inr f ↦ unfold fs_set_mode in rw f refl
        | inl u ↦
            let o : owner_of t node ≡ (node_at t node).owner =
              unfold fs_get_owner in ground (arith, u) in
            absurd (other (ground (arith, o, h, e)))
      ]
]

-- A user other than root changes no node with `chmod` that belongs to another user.
cmd_chmod-other :
    (s : Shell) (argv : List (List ℕ)) (uid j : ℕ)
    → uid ≢ 0
    → (node_at s.nodes j).owner ≢ uid
    → node_at (cmd_chmod s argv uid).nodes j ≡ node_at s.nodes j
unfolding cmd_chmod
cmd_chmod-other s argv uid j root other =
    let Same : Shell → Type 0 = λ t. node_at t.nodes j ≡ node_at s.nodes j in
    branch Same (ltb (length argv) 3) (λ y. refl)
      (λ n.
        option_branch Same (parse_mode_octal (arg argv 1)) (λ e. refl)
          (λ mode e.
            option_branch Same (fs_resolve s.nodes s.shell_cwd (arg argv 2)) (λ e. refl)
              (λ node e.
                branch Same (not (uid == 0) && not (owner_of s.nodes node == uid)) (λ y. refl)
                  (λ n. set_mode_by s.nodes node mode uid j other (ground (arith, n, root))))))
