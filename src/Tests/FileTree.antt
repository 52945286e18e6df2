-- ===== src/Tests/FileTree.antt =====
-- kernel/fs.c at the table that `fs_init` leaves, and after some calls.
use fur_os.Prelude.{ℕ, ◌≡◌, refl, ◌↔◌, true, false, some, arith, codes, ◌>>=◌, set}
use fur_os.KString.{kstrcmp, str_eq, kstrcpy, kstrlen, kmemcpy}
use fur_os.Fs.Node.{Nodes, node_at, make_root, fs_init, zeros, ok, is_node}
use fur_os.Fs.Find.{scan, alloc_node, find_child, is_valid_name}
use fur_os.Fs.Tree.{IsDirectory}
use fur_os.Fs.Resolve.{
  fs_resolve, resolve_from, enter, last_slash, parent_of, resolve_parent_and_leaf,
}
use fur_os.Fs.Resolve.Walk.{components, walk, start, fs_resolve-eq-walk}
use fur_os.Fs.Resolve.Compose.{fs_resolve-append}
use fur_os.Fs.Create.{fs_mkdir_as, mkdir_at, fs_touch_as, touch_at, fs_touch}
use fur_os.Fs.Create.Lookup.{IsPlain, Leads, mkdir-resolve, touch-resolve}
use fur_os.Fs.Files.{fs_write_file, open_for_write, fs_remove, is_occupied}
use fur_os.Fs.Files.Keeps.{Removable, fs_remove_iff}
use fur_os.Fs.Files.Contents.{Reads, read-write}
use fur_os.Fs.Access.{fs_check_access}
use fur_os.Fs.Access.Rights.{Grants, fs_check_access_iff}
use fur_os.Fs.Image.{fs_deserialize}
use fur_os.Fs.Image.RoundTrip.{image, deserialize-serialize, fs_serialize-image}
use fur_os.Fs.System.{
  IsFileSystem, Step, Reach, Reach-IsFileSystem, fs_init-IsFileSystem, Step-IsFileSystem,
}

root_IsDirectory : IsDirectory fs_init 0
root_IsDirectory = fs_init-IsFileSystem.files.tree.root

-- mkdir home
abbrev with_home : Nodes
with_home = (fs_mkdir_as fs_init 0 (codes "home") 0 0o755).1

made_home : Step fs_init with_home
made_home = Step.mkdir fs_init 0 (codes "home") 0 0o755 root_IsDirectory (omega arith)

Reach-IsFileSystem_example : IsFileSystem with_home
Reach-IsFileSystem_example = Reach-IsFileSystem (Reach.next Reach.here made_home)

fs_resolve-eq-walk_example :
    fs_resolve fs_init 0 (codes "/../a")
    ≡ walk fs_init (start 0 (codes "/../a")) (components (codes "/../a"))
fs_resolve-eq-walk_example =
    fs_resolve-eq-walk fs_init 0 (codes "/../a") fs_init-IsFileSystem.files.tree
      root_IsDirectory.used

-- What a run of the model computes with.
fs_runs : Unit {0}
unfolding fs_mkdir_as mkdir_at fs_touch fs_touch_as touch_at resolve_parent_and_leaf parent_of
    fs_resolve resolve_from enter last_slash is_valid_name find_child alloc_node scan fs_init
    make_root zeros str_eq kstrcmp kstrcpy kstrlen fs_write_file open_for_write fs_remove
    is_occupied fs_check_access
fs_runs = tt

home_split : resolve_parent_and_leaf fs_init 0 (codes "home") ≡ some (0, codes "home")
unfolding fs_runs
home_split = refl

home-IsPlain : IsPlain (codes "home")
unfolding fs_runs
home-IsPlain = record { not_dot = refl; not_dots = refl }

home_made : (fs_mkdir_as fs_init 0 (codes "home") 0 0o755).0 ≡ ok
unfolding fs_runs
home_made = refl

home_touched : (fs_touch_as fs_init 0 (codes "home") 7 0o644).0 ≡ ok
unfolding fs_runs
home_touched = refl

mkdir-resolve_example : Leads with_home 0 (codes "home") 0 true
mkdir-resolve_example =
    mkdir-resolve fs_init 0 (codes "home") 0 (codes "home") fs_init-IsFileSystem root_IsDirectory
      (omega arith) home_split home-IsPlain 0 0o755 home_made

touch-resolve_example :
    Leads (fs_touch_as fs_init 0 (codes "home") 7 0o644).1 0 (codes "home") 0 false
touch-resolve_example =
    touch-resolve fs_init 0 (codes "home") 0 (codes "home") fs_init-IsFileSystem root_IsDirectory
      (omega arith) home_split home-IsPlain 7 0o644 home_touched

with_home-IsFileSystem : IsFileSystem with_home
with_home-IsFileSystem = Step-IsFileSystem made_home fs_init-IsFileSystem

home_IsDirectory : IsDirectory with_home 1
unfolding fs_runs
home_IsDirectory = record { used = refl; is_dir = refl }

root_stays : IsDirectory with_home 0
root_stays = with_home-IsFileSystem.files.tree.root

fs_resolve-append_example :
    fs_resolve with_home 0 (codes "/home/..")
    ≡ (fs_resolve with_home 0 (codes "/home") >>= λ c. fs_resolve with_home c (codes ".."))
fs_resolve-append_example =
    fs_resolve-append with_home 0 (codes "/home") (codes "..") with_home-IsFileSystem.files.tree
      root_stays.used (omega arith) (omega arith) (omega arith)

note_written : (fs_write_file with_home 1 (codes "../note") (codes "hello") 5).0 ≡ ok
unfolding fs_runs kmemcpy
note_written = refl

read-write_example :
    Reads
      (fs_write_file with_home 1 (codes "../note") (codes "hello") 5).1
      1
      (codes "../note")
      (codes "hello")
      5
read-write_example =
    read-write with_home 1 (codes "../note") (codes "hello") 5 with_home-IsFileSystem
      home_IsDirectory (omega arith) note_written

fs_remove_iff_example :
    ((fs_remove with_home 0 (codes "home")).0 ≡ ok)
    ↔ ((node : ℕ) × Removable with_home 0 (codes "home") node)
fs_remove_iff_example =
    fs_remove_iff with_home 0 (codes "home") with_home-IsFileSystem.files root_stays

home_removed : (fs_remove with_home 0 (codes "home")).0 ≡ ok
unfolding fs_runs
home_removed = refl

home_found : fs_resolve with_home 0 (codes "home") ≡ some 1
unfolding fs_runs
home_found = refl

home_live : is_node with_home 1 ≡ true
unfolding fs_runs
home_live = refl

-- The others read and enter a directory of mode 0755.
fs_check_access_iff_example :
    (fs_check_access with_home 1 1000 5 ≡ true) ↔ Grants (node_at with_home 1) 1000 5
fs_check_access_iff_example =
    fs_check_access_iff with_home 1 1000 5 home_live (omega arith) (omega arith)

deserialize-serialize_example :
    fs_deserialize fs_init (image with_home)
    ≡ (ok, set with_home 0 (make_root (node_at with_home 0)))
deserialize-serialize_example =
    deserialize-serialize fs_init with_home 530192 (image with_home) with_home-IsFileSystem
      (fs_serialize-image with_home 530192 (omega arith))
