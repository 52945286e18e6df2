-- ===== src/Fs/System.antt =====
-- kernel/fs.c as a state machine: the calls that change the table, and the invariant of all of it.
pub mod Directories
use fur_os.Prelude.{
  ℕ, ◌<◌, ◌^◌, ◌≡◌, List, arith, replicate, length-replicate, length-set, get_or-replicate, ◌==◌,
  if◌then◌else◌,
}
use fur_os.Fs.Node.{Nodes, node_at, blank, make_root, fs_init}
use fur_os.Fs.Tree.{IsDirectory, top, IsUsed, node_at-set}
use fur_os.Fs.Create.{fs_mkdir_as, fs_touch_as}
use fur_os.Fs.Create.Outcome.{IsFileTree, fs_mkdir_as-IsFileTree, fs_touch_as-IsFileTree}
use fur_os.Fs.Files.{fs_write_file, fs_remove}
use fur_os.Fs.Files.Keeps.{fs_write_file-IsFileTree, fs_remove-IsFileTree}
use fur_os.Fs.Access.{fs_set_owner, fs_set_mode}
use fur_os.Fs.Access.Rights.{fs_set_owner-IsFileTree, fs_set_mode-IsFileTree}
use fur_os.Fs.Layout.{AllLaidOut}
use fur_os.Fs.Layout.Keeps.{
  fs_init-AllLaidOut, fs_mkdir_as-AllLaidOut, fs_touch_as-AllLaidOut, fs_write_file-AllLaidOut,
  fs_remove-AllLaidOut, fs_set_owner-AllLaidOut, fs_set_mode-AllLaidOut,
}

-- A tree without cycles whose nodes are laid out.
pub record IsFileSystem (t : Nodes) : Type 0 where
  pub files : IsFileTree t
  pub layout : AllLaidOut t

-- One call, whatever it returns. A path is taken from a directory in use, as callers do.
pub data Step : Nodes → Nodes → Type 0 where
  mkdir :
      (t : Nodes) (cwd : ℕ) (path : List ℕ) (owner mode : ℕ)
      → IsDirectory t cwd
      → owner < 2 ^ 16
      → Step t (fs_mkdir_as t cwd path owner mode).1
  touch :
      (t : Nodes) (cwd : ℕ) (path : List ℕ) (owner mode : ℕ)
      → IsDirectory t cwd
      → owner < 2 ^ 16
      → Step t (fs_touch_as t cwd path owner mode).1
  write :
      (t : Nodes) (cwd : ℕ) (path source : List ℕ) (size : ℕ)
      → IsDirectory t cwd
      → Step t (fs_write_file t cwd path source size).1
  remove :
      (t : Nodes) (cwd : ℕ) (path : List ℕ) → IsDirectory t cwd → Step t (fs_remove t cwd path).1
  chown : (t : Nodes) (node owner : ℕ) → owner < 2 ^ 16 → Step t (fs_set_owner t node owner).1
  chmod : (t : Nodes) (node mode : ℕ) → Step t (fs_set_mode t node mode).1

pub data Reach (t : Nodes) : Nodes → Type 0 where
  here : Reach t t
  next : {u w : Nodes} → Reach t u → Step u w → Reach t w

pub Step-IsFileSystem : {t u : Nodes} → Step t u → IsFileSystem t → IsFileSystem u
Step-IsFileSystem (mkdir t cwd path owner mode d o) v = record {
  files = fs_mkdir_as-IsFileTree t cwd path owner mode v.files d;
  layout = fs_mkdir_as-AllLaidOut t cwd path v.layout v.files.tree d owner mode o;
}
Step-IsFileSystem (touch t cwd path owner mode d o) v = record {
  files = fs_touch_as-IsFileTree t cwd path owner mode v.files d;
  layout = fs_touch_as-AllLaidOut t cwd path v.layout v.files.tree d owner mode o;
}
Step-IsFileSystem (write t cwd path source size d) v = record {
  files = fs_write_file-IsFileTree t cwd path v.files d source size;
  layout = fs_write_file-AllLaidOut t cwd path v.layout v.files.tree d source size;
}
Step-IsFileSystem (remove t cwd path d) v = record {
  files = fs_remove-IsFileTree t cwd path v.files d;
  layout = fs_remove-AllLaidOut t v.layout cwd path;
}
Step-IsFileSystem (chown t node owner o) v = record {
  files = fs_set_owner-IsFileTree t node owner v.files;
  layout = fs_set_owner-AllLaidOut t v.layout node owner o;
}
Step-IsFileSystem (chmod t node mode) v = record {
  files = fs_set_mode-IsFileTree t node mode v.files;
  layout = fs_set_mode-AllLaidOut t v.layout node mode;
}

pub fs_init-node : (i : ℕ) → node_at fs_init i ≡ (if 0 == i then make_root blank else blank)
unfolding fs_init
fs_init-node i = ground (
  arith,
  node_at-set (replicate 128 blank) 0 i (make_root blank),
  get_or-replicate 128 i blank,
  length-replicate 128 blank,
)

fs_init-used : (i : ℕ) → IsUsed fs_init i → i ≡ 0
unfolding make_root
fs_init-used i u = ground (arith, fs_init-node i)

root_dir : IsDirectory fs_init 0
unfolding make_root
root_dir = record { used = ground (arith, fs_init-node 0); is_dir = ground (arith, fs_init-node 0) }

root_of_root : (node_at fs_init 0).parent ≡ 0
unfolding make_root
root_of_root = ground (arith, fs_init-node 0)

pub fs_init-IsFileSystem : IsFileSystem fs_init
fs_init-IsFileSystem = record {
  files = record {
    tree = record {
      table =
          unfold fs_init in
          ground (
            arith,
            length-set (replicate 128 blank) 0 (make_root blank),
            length-replicate 128 blank,
          );
      root = root_dir;
      root_parent = root_of_root;
      parents = λ i u. rw (fs_init-used i u) (rw root_of_root root_dir);
    };
    rooted = record { under = λ i u. rw (fs_init-used i u) top };
  };
  layout = fs_init-AllLaidOut;
}

-- From the initial table on, whatever calls of mkdir, touch, write, remove, chown and chmod are
-- made, each path taken from a directory in use and each owner one of 16 bits, and whatever they
-- return: the used nodes form a tree under the root without cycles, whose inner nodes are
-- directories, and every node's arrays hold their terminators and its numbers are in range.
pub Reach-IsFileSystem : {t : Nodes} → Reach fs_init t → IsFileSystem t
Reach-IsFileSystem here = fs_init-IsFileSystem
Reach-IsFileSystem (next r s) = Step-IsFileSystem s (Reach-IsFileSystem r)
