-- ===== src/Shell/Files/Keeps.antt =====
-- kernel/shell.c: the commands on files keep the tree, the working directory and the screen.
use fur_os.Prelude.{
  ℕ, ◌<◌, ◌^◌, ◌≡◌, ◌≢◌, Bool, true, ◌&&◌, not, some, List, [], ◌∷◌, arith, length, ltb, ◌==◌,
  if◌then◌else◌, branch, option_branch,
}
use fur_os.Fs.Node.{Nodes, Status, ok, fail, fs_is_dir, zeros}
use fur_os.Fs.Tree.{IsDirectory}
use fur_os.Fs.System.{IsFileSystem, Step, Step-IsFileSystem}
use fur_os.Fs.System.Directories.{
  fs_mkdir_as-IsDirectory, fs_touch_as-IsDirectory, fs_write_file-IsDirectory,
  fs_remove-IsDirectory, fs_set_owner-IsDirectory, fs_set_mode-IsDirectory,
}
use fur_os.Fs.Resolve.{fs_resolve}
use fur_os.Fs.Create.{fs_mkdir_as, fs_touch_as}
use fur_os.Fs.Files.{fs_list, fs_read_file, fs_write_file, fs_remove}
use fur_os.Fs.Access.{fs_check_access, fs_set_owner, fs_set_mode}
use fur_os.Fs.MakePath.{fs_make_path}
use fur_os.Vga.{Screen, vga_write_string}
use fur_os.Vga.View.{IsInView, vga_write_string-IsInView}
use fur_os.Shell.State.{Shell, say, write_all}
use fur_os.Shell.Numbers.{parse_mode_octal, parse_uid}
use fur_os.Shell.Packages.{arg}
use fur_os.Shell.Access.{require_root, ensure_parent_writable, resolve_parent_path}
use fur_os.Shell.Files.{
  list_entries, cmd_ls, cmd_pwd, cmd_cd, cmd_mkdir, cmd_touch, cmd_cat, cmd_write, cmd_rm,
  cmd_chmod, cmd_chown, reported, owner_of,
}

-- The table is a file system, the working directory is a directory of it, and the cursor is in the
-- viewport of the screen; the user id is one of 16 bits.
pub record IsShell (s : Shell) : Type 0 where
  pub files : IsFileSystem s.nodes
  pub cwd : IsDirectory s.nodes s.shell_cwd
  pub screen : IsInView s.screen
  pub uid : s.shell_uid < 2 ^ 16

write_all-IsInView :
    (texts : List (List ℕ)) (screen : Screen) → IsInView screen → IsInView (write_all screen texts)
unfolding write_all
write_all-IsInView [] screen v = v
write_all-IsInView (text ∷ rest) screen v =
    write_all-IsInView rest (vga_write_string screen text) (vga_write_string-IsInView text screen v)

fs_is_dir-IsDirectory : (t : Nodes) (node : ℕ) → fs_is_dir t node ≡ true → IsDirectory t node
unfolding fs_is_dir
fs_is_dir-IsDirectory t node h = record { used = ground (arith, h); is_dir = ground (arith, h) }

parse_uid-lt : (name : List ℕ) (owner : ℕ) → parse_uid name ≡ some owner → owner < 2 ^ 16
unfolding parse_uid
parse_uid-lt name owner h = ground (arith, h)

module _ (s : Shell) (v : IsShell s) where
  pub say-IsShell : (texts : List (List ℕ)) → IsShell (say texts s)
  say-IsShell texts = record {
    files = v.files;
    cwd = v.cwd;
    screen = write_all-IsInView texts s.screen v.screen;
    uid = v.uid;
  }

  pub nodes-IsShell :
      (t : Nodes) → IsFileSystem t → IsDirectory t s.shell_cwd → IsShell (record s { nodes = t })
  nodes-IsShell t f d = record { files = f; cwd = d; screen = v.screen; uid = v.uid }

  ensure_parent_writable-IsShell :
      (path : List ℕ) (uid : ℕ) → IsShell (ensure_parent_writable s path uid).1
  unfolding ensure_parent_writable
  ensure_parent_writable-IsShell path uid =
      option_branch (λ (r : Bool × Shell). IsShell r.1) (resolve_parent_path s path)
        (λ e. say-IsShell _)
        (λ p e.
          branch (λ (r : Bool × Shell). IsShell r.1) (fs_check_access s.nodes p uid 3) (λ y. v)
            (λ n. say-IsShell _))

  list_entries-IsShell : (target : ℕ) → IsShell (list_entries s target)
  unfolding list_entries
  list_entries-IsShell target =
      option_branch IsShell (fs_list s.nodes target 128) (λ e. say-IsShell _)
        (λ r e. branch IsShell (r.0 == 0) (λ y. say-IsShell _) (λ n. say-IsShell _))

  pub cmd_ls-IsShell : (argv : List (List ℕ)) (uid : ℕ) → IsShell (cmd_ls s argv uid)
  unfolding cmd_ls
  cmd_ls-IsShell argv uid =
      option_branch IsShell
        (if ltb 1 (length argv)
          then fs_resolve s.nodes s.shell_cwd (arg argv 1)
          else some s.shell_cwd)
        (λ e. say-IsShell _)
        (λ target e.
          branch IsShell (not (fs_is_dir s.nodes target)) (λ y. say-IsShell _)
            (λ n.
              branch IsShell (not (fs_check_access s.nodes target uid 5)) (λ y. say-IsShell _)
                (λ n. list_entries-IsShell target)))

  pub cmd_pwd-IsShell : IsShell (cmd_pwd s)
  unfolding cmd_pwd
  cmd_pwd-IsShell =
      option_branch IsShell (fs_make_path s.nodes s.shell_cwd (zeros 128) 128) (λ e. say-IsShell _)
        (λ path e. say-IsShell _)

  pub cmd_cd-IsShell : (argv : List (List ℕ)) (uid : ℕ) → IsShell (cmd_cd s argv uid)
  unfolding cmd_cd
  cmd_cd-IsShell argv uid =
      branch IsShell (ltb (length argv) 2)
        (λ y. record {
          files = v.files;
          cwd = v.files.files.tree.root;
          screen = v.screen;
          uid = v.uid;
        })
        (λ n.
          option_branch IsShell (fs_resolve s.nodes s.shell_cwd (arg argv 1)) (λ e. say-IsShell _)
            (λ target e.
              branch IsShell (not (fs_is_dir s.nodes target)) (λ y. say-IsShell _)
                (λ n.
                  branch IsShell (not (fs_check_access s.nodes target uid 1)) (λ y. say-IsShell _)
                    (λ m. record {
                      files = v.files;
                      cwd = fs_is_dir-IsDirectory s.nodes target (ground (arith, n));
                      screen = v.screen;
                      uid = v.uid;
                    }))))

  reported-IsShell :
      (result : Status × Nodes) (message : List (List ℕ))
      → IsFileSystem result.1
      → IsDirectory result.1 s.shell_cwd
      → IsShell (reported s result message)
  reported-IsShell (ok, t) message f d = nodes-IsShell t f d
  reported-IsShell (fail, t) message f d = record {
    files = f;
    cwd = d;
    screen = write_all-IsInView message s.screen v.screen;
    uid = v.uid;
  }

  pub cmd_mkdir-IsShell :
      (argv : List (List ℕ)) (uid : ℕ) → uid < 2 ^ 16 → IsShell (cmd_mkdir s argv uid)
  unfolding cmd_mkdir
  cmd_mkdir-IsShell argv uid small =
      let path = arg argv 1 in
      branch IsShell (ltb (length argv) 2) (λ y. say-IsShell _)
        (λ n.
          option_branch IsShell (fs_resolve s.nodes s.shell_cwd path)
            (λ e.
              branch IsShell (ensure_parent_writable s path uid).0
                (λ w.
                  reported-IsShell (fs_mkdir_as s.nodes s.shell_cwd path uid 0o755) _
                    (Step-IsFileSystem (Step.mkdir s.nodes s.shell_cwd path uid 0o755 v.cwd small)
                      v.files)
                    (fs_mkdir_as-IsDirectory s.nodes s.shell_cwd s.shell_cwd path v.files.files.tree
                      v.cwd uid 0o755))
                (λ w. ensure_parent_writable-IsShell path uid))
            (λ node e. branch IsShell (fs_is_dir s.nodes node) (λ y. v) (λ y. say-IsShell _)))

  pub cmd_touch-IsShell :
      (argv : List (List ℕ)) (uid : ℕ) → uid < 2 ^ 16 → IsShell (cmd_touch s argv uid)
  unfolding cmd_touch
  cmd_touch-IsShell argv uid small =
      let path = arg argv 1 in
      branch IsShell (ltb (length argv) 2) (λ y. say-IsShell _)
        (λ n.
          option_branch IsShell (fs_resolve s.nodes s.shell_cwd path)
            (λ e.
              branch IsShell (ensure_parent_writable s path uid).0
                (λ w.
                  reported-IsShell (fs_touch_as s.nodes s.shell_cwd path uid 0o644) _
                    (Step-IsFileSystem (Step.touch s.nodes s.shell_cwd path uid 0o644 v.cwd small)
                      v.files)
                    (fs_touch_as-IsDirectory s.nodes s.shell_cwd s.shell_cwd path v.files.files.tree
                      v.cwd uid 0o644))
                (λ w. ensure_parent_writable-IsShell path uid))
            (λ node e.
              branch IsShell (fs_is_dir s.nodes node) (λ y. say-IsShell _)
                (λ n.
                  branch IsShell (not (fs_check_access s.nodes node uid 2)) (λ y. say-IsShell _)
                    (λ y. v))))

  pub cmd_cat-IsShell : (argv : List (List ℕ)) (uid : ℕ) → IsShell (cmd_cat s argv uid)
  unfolding cmd_cat
  cmd_cat-IsShell argv uid =
      branch IsShell (ltb (length argv) 2) (λ y. say-IsShell _)
        (λ n.
          option_branch IsShell (fs_resolve s.nodes s.shell_cwd (arg argv 1)) (λ e. say-IsShell _)
            (λ node e.
              branch IsShell (fs_is_dir s.nodes node) (λ y. say-IsShell _)
                (λ n.
                  branch IsShell (not (fs_check_access s.nodes node uid 4)) (λ y. say-IsShell _)
                    (λ n.
                      option_branch IsShell (fs_read_file s.nodes s.shell_cwd (arg argv 1))
                        (λ e. say-IsShell _)
                        (λ r e.
                          branch IsShell (r.1 == 0) (λ y. say-IsShell _) (λ n. say-IsShell _))))))

  write-IsShell :
      (path source : List ℕ) (size : ℕ) (message : List (List ℕ))
      → IsShell (reported s (fs_write_file s.nodes s.shell_cwd path source size) message)
  write-IsShell path source size message =
      reported-IsShell (fs_write_file s.nodes s.shell_cwd path source size) message
        (Step-IsFileSystem (Step.write s.nodes s.shell_cwd path source size v.cwd) v.files)
        (fs_write_file-IsDirectory s.nodes s.shell_cwd s.shell_cwd path v.files.files.tree v.cwd
          source size)

  pub cmd_write-IsShell : (argv : List (List ℕ)) → IsShell (cmd_write s argv)
  unfolding cmd_write
  cmd_write-IsShell argv =
      branch IsShell (ltb (length argv) 3) (λ y. say-IsShell _) (λ n. write-IsShell _ _ _ _)

  pub cmd_rm-IsShell :
      (argv : List (List ℕ))
      → fs_resolve s.nodes s.shell_cwd (arg argv 1) ≢ some s.shell_cwd
      → IsShell (cmd_rm s argv)
  unfolding cmd_rm
  cmd_rm-IsShell argv other =
      let path = arg argv 1 in
      branch IsShell (ltb (length argv) 2) (λ y. say-IsShell _)
        (λ n.
          reported-IsShell (fs_remove s.nodes s.shell_cwd path) _
            (Step-IsFileSystem (Step.remove s.nodes s.shell_cwd path v.cwd) v.files)
            (fs_remove-IsDirectory s.nodes s.shell_cwd s.shell_cwd path v.files.files.tree v.cwd
              other))

  pub cmd_chmod-IsShell : (argv : List (List ℕ)) (uid : ℕ) → IsShell (cmd_chmod s argv uid)
  unfolding cmd_chmod
  cmd_chmod-IsShell argv uid =
      branch IsShell (ltb (length argv) 3) (λ y. say-IsShell _)
        (λ n.
          option_branch IsShell (parse_mode_octal (arg argv 1)) (λ e. say-IsShell _)
            (λ mode e.
              option_branch IsShell (fs_resolve s.nodes s.shell_cwd (arg argv 2))
                (λ e. say-IsShell _)
                (λ node e.
                  branch IsShell (not (uid == 0) && not (owner_of s.nodes node == uid))
                    (λ y. say-IsShell _)
                    (λ n.
                      nodes-IsShell (fs_set_mode s.nodes node mode).1
                        (Step-IsFileSystem (Step.chmod s.nodes node mode) v.files)
                        (fs_set_mode-IsDirectory s.nodes s.shell_cwd node mode v.cwd)))))

  require_root-IsShell : (uid : ℕ) → IsShell (require_root s uid).1
  unfolding require_root
  require_root-IsShell uid =
      branch (λ (r : Bool × Shell). IsShell r.1) (uid == 0) (λ y. v) (λ n. say-IsShell _)

  pub cmd_chown-IsShell : (argv : List (List ℕ)) (uid : ℕ) → IsShell (cmd_chown s argv uid)
  unfolding cmd_chown
  cmd_chown-IsShell argv uid =
      branch IsShell (ltb (length argv) 3) (λ y. say-IsShell _)
        (λ n.
          branch IsShell (not (require_root s uid).0) (λ y. require_root-IsShell uid)
            (λ n.
              option_branch IsShell (parse_uid (arg argv 1)) (λ e. say-IsShell _)
                (λ owner o.
                  option_branch IsShell (fs_resolve s.nodes s.shell_cwd (arg argv 2))
                    (λ e. say-IsShell _)
                    (λ node e.
                      nodes-IsShell (fs_set_owner s.nodes node owner).1
                        (Step-IsFileSystem
                          (Step.chown s.nodes node owner (parse_uid-lt (arg argv 1) owner o))
                          v.files)
                        (fs_set_owner-IsDirectory s.nodes s.shell_cwd node owner v.cwd)))))
