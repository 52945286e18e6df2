-- ===== src/Shell/Access/Parent.antt =====
-- The shell's own search for the parent of a path against that of kernel/fs.c.
use fur_os.Prelude.{ℕ, ◌≡◌, none, some, List, arith, Option-cases, inl, inr, true}
use fur_os.Fs.Resolve.{last_slash, parent_of, resolve_parent_and_leaf}
use fur_os.Fs.Access.{fs_check_access}
use fur_os.Shell.State.{Shell}
use fur_os.Shell.Access.{resolve_parent_path, ensure_parent_writable}

-- Where both find a parent, it is one.
resolve_parent_path_unique :
    (s : Shell) (path : List ℕ) (p q : ℕ) (leaf : List ℕ)
    → resolve_parent_and_leaf s.nodes s.shell_cwd path ≡ some (p, leaf)
    → resolve_parent_path s path ≡ some q
    → p ≡ q
unfolding resolve_parent_and_leaf resolve_parent_path parent_of
resolve_parent_path_unique s path p q leaf h k = elim (Option-cases (last_slash 0 none path)) [
  | inl e ↦ ground (arith, e, h, k)
  | inr (slash, e) ↦ ground (arith, e, h, k)
]

-- What `ensure_parent_writable` makes sure of.
pub ensure_parent_writable_sound :
    (s : Shell) (path : List ℕ) (uid p : ℕ) (leaf : List ℕ)
    → (ensure_parent_writable s path uid).0 ≡ true
    → resolve_parent_and_leaf s.nodes s.shell_cwd path ≡ some (p, leaf)
    → fs_check_access s.nodes p uid 3 ≡ true
unfolding ensure_parent_writable
ensure_parent_writable_sound s path uid p leaf h k =
    elim (Option-cases (resolve_parent_path s path)) [
      | inl e ↦ absurd (ground (arith, e, h))
      | inr (q, e) ↦ ground (arith, e, h, resolve_parent_path_unique s path p q leaf k e)
    ]

pub ensure_parent_writable-nodes :
    (s : Shell) (path : List ℕ) (uid : ℕ) → (ensure_parent_writable s path uid).1.nodes ≡ s.nodes
unfolding ensure_parent_writable
ensure_parent_writable-nodes s path uid = ground arith
