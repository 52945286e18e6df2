-- ===== src/Tests/Terminal.antt =====
-- kernel/shell.c: commands, `nano` and the main loop on an empty tree.
use fur_os.Prelude.{
  ℕ, ◌≡◌, ◌≢◌, refl, true, some, List, [], ◌∷◌, arith, codes, inl, length-replicate,
}
use fur_os.KString.{str_eq, kstrcmp, kstrncpy, kstrlen, kstrcpy}
use fur_os.Fs.Node.{fs_init, node_at, zeros}
use fur_os.Fs.System.{fs_init-IsFileSystem}
use fur_os.Fs.Resolve.{fs_resolve}
use fur_os.Fs.Access.{fs_check_access}
use fur_os.Fs.Resolve.{resolve_from, enter, resolve_parent_and_leaf, last_slash}
use fur_os.Fs.Find.{find_child, alloc_node, is_valid_name, scan}
use fur_os.Fs.Create.{fs_mkdir_as, mkdir_at, fs_touch, fs_touch_as, touch_at}
use fur_os.Fs.Files.{fs_read_file}
use fur_os.Shell.Access.{ensure_parent_writable, resolve_parent_path}
use fur_os.Shell.State.{Shell, booted}
use fur_os.Shell.Packages.{arg}
use fur_os.Shell.Files.{cmd_mkdir, cmd_touch}
use fur_os.Shell.Files.Rights.{new_entry_rights}
use fur_os.Shell.Files.Keeps.{IsShell}
use fur_os.Shell.Nano.{Editor, cmd_nano, nano_loop, open_nano, on_edit, leave_nano}
use fur_os.Shell.Nano.Bounds.{IsEditor, on_edit-IsEditor}
use fur_os.Shell.Command.{shell_command, is_command, cmd_logout}
use fur_os.Shell.Machine.{Machine}
use fur_os.Shell.Run.{out_of_rounds, hanging, shell_dispatch, shell_run, cmd_sudo, restore_uid}
use fur_os.Shell.Run.Sound.{shell_command-IsShell}
use fur_os.Shell.Run.Ends.{shell_run_ends}
use fur_os.Disk.Store.{Disk, disk_init}
use fur_os.Shell.Run.User.{shell_dispatch-shell_uid}
use fur_os.Tests.Commands.{started}
use fur_os.Tests.DiskImage.{memory, empty_disk}

-- The words of a command line.
abbrev mkdir_home : List (List ℕ)
mkdir_home = codes "mkdir" ∷ codes "home" ∷ []

made : (node_at (cmd_mkdir started mkdir_home 0).nodes 1).used ≡ true
unfolding cmd_mkdir ensure_parent_writable resolve_parent_path fs_check_access fs_mkdir_as mkdir_at
    fs_resolve resolve_from enter resolve_parent_and_leaf find_child alloc_node is_valid_name
    kstrlen kstrcmp kstrncpy booted fs_init str_eq scan kstrcpy zeros last_slash
made = refl

new_entry_rights_example :
    fs_check_access fs_init (node_at (cmd_mkdir started mkdir_home 0).nodes 1).parent 0 3 ≡ true
unfolding booted fs_init
new_entry_rights_example =
    new_entry_rights started mkdir_home 0 1 (cmd_mkdir started mkdir_home 0)
      fs_init-IsFileSystem.files.tree (inl refl) refl made

started-IsShell : IsShell started
unfolding booted fs_init
started-IsShell = record {
  files = fs_init-IsFileSystem;
  cwd = fs_init-IsFileSystem.files.tree.root;
  screen = record {
    on_screen = record {
      row = omega arith;
      column = omega arith;
      top = omega arith;
      bottom = omega arith;
      memory = length-replicate {A = ℕ} 2000 0;
    };
    top = omega arith;
    bottom = omega arith;
  };
  uid = omega arith;
}

-- As root, `touch` of a file.
abbrev as_superuser : Shell
as_superuser = record started { shell_uid = 0 }

abbrev touch_note : List (List ℕ)
touch_note = codes "touch" ∷ codes "note" ∷ []

superuser-IsShell : IsShell as_superuser
superuser-IsShell = record {
  files = started-IsShell.files;
  cwd = started-IsShell.cwd;
  screen = started-IsShell.screen;
  uid = omega arith;
}

no_rm :
    is_command touch_note "rm" ≡ true
    → fs_resolve as_superuser.nodes as_superuser.shell_cwd (arg touch_note 1)
      ≢ some as_superuser.shell_cwd
unfolding str_eq kstrcmp
no_rm h = absurd (cc h)

touched : shell_command as_superuser touch_note ≡ some (cmd_touch as_superuser touch_note 0)
unfolding shell_command str_eq kstrcmp
touched = refl

shell_command-IsShell_example : IsShell (cmd_touch as_superuser touch_note 0)
shell_command-IsShell_example =
    shell_command-IsShell as_superuser (cmd_touch as_superuser touch_note 0) touch_note
      superuser-IsShell no_rm touched

-- A terminal on an empty disk whose user types `exit`.
abbrev terminal : List ℕ → Machine memory
terminal typed = record { shell = started; disk = empty_disk; input = typed }

abbrev scanned : Disk memory
scanned = record empty_disk { g_disk_count = 1; g_selected_disk = some 0; g_last_error = "ok" }

scan_returns : disk_init memory empty_disk ≡ some scanned
unfolding disk_init
scan_returns = refl

shell_run_ends_example :
    (shell_run memory 6 (terminal (codes "exit\n")) ≢ out_of_rounds)
    × (shell_run memory 6 (terminal (codes "exit\n")) ≢ hanging)
shell_run_ends_example =
    shell_run_ends memory 6 (terminal (codes "exit\n")) scanned scan_returns (omega arith)

abbrev sudo_exit : List (List ℕ)
sudo_exit = codes "sudo" ∷ codes "exit" ∷ []

abbrev left : Machine memory
left = record (terminal []) { shell = record started { g_shell_exit = true } }

sudo_leaves : shell_dispatch memory (terminal []) sudo_exit ≡ some left
unfolding shell_dispatch cmd_sudo restore_uid shell_command cmd_logout str_eq kstrcmp booted
sudo_leaves = refl

shell_dispatch-shell_uid_example : left.shell.shell_uid ≡ (terminal []).shell.shell_uid
shell_dispatch-shell_uid_example =
    shell_dispatch-shell_uid memory (terminal []) left sudo_exit sudo_leaves

-- `nano note`, in which the user types `h` and leaves with Ctrl+X.
abbrev edit_note : List (List ℕ)
edit_note = codes "nano" ∷ codes "note" ∷ []

abbrev with_note : Shell
with_note = record as_superuser { nodes = (fs_touch fs_init 0 (codes "note")).1 }

abbrev edited : Shell
edited =
    leave_nano (codes "note")
      (on_edit (codes "note") 104 (open_nano with_note (node_at with_note.nodes 1).contents 0))

nano_ends : cmd_nano as_superuser edit_note (104 ∷ 24 ∷ []) ≡ some (edited, [])
unfolding cmd_nano nano_loop fs_touch fs_read_file fs_touch_as touch_at fs_resolve resolve_from
    enter resolve_parent_and_leaf find_child alloc_node is_valid_name kstrlen kstrcmp kstrncpy
    booted fs_init str_eq scan kstrcpy zeros last_slash
nano_ends = refl

abbrev typed_h : Editor
typed_h = record { shell = as_superuser; buffer = codes "h"; dirty = true }

typed_h-IsEditor : IsEditor typed_h
typed_h-IsEditor = record { room = omega arith; shell = superuser-IsShell }

on_edit-IsEditor_example : IsEditor (on_edit (codes "note") 105 typed_h)
on_edit-IsEditor_example = on_edit-IsEditor typed_h typed_h-IsEditor (codes "note") 105
