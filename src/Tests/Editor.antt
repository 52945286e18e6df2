-- ===== src/Tests/Editor.antt =====
-- kernel/desktop.c: the text editor with two short lines in it.
use fur_os.Prelude.{
  ℕ, ◌+◌, ◌≡◌, refl, false, none, ◌++◌, arith, codes, replicate, set, length-replicate,
}
use fur_os.Fs.Node.{Nodes, ok, node_at, make_root, fs_init, zeros}
use fur_os.Fs.System.{IsFileSystem, fs_init-IsFileSystem}
use fur_os.KString.{kstrlen, kstrcmp, kstrncpy, kstrcpy, kmemcpy, str_eq}
use fur_os.Fs.Find.{find_child, alloc_node, is_valid_name, scan}
use fur_os.Fs.Resolve.{fs_resolve, resolve_from, enter, resolve_parent_and_leaf, last_slash}
use fur_os.Fs.Create.{fs_touch, fs_touch_as, touch_at}
use fur_os.Fs.Files.{fs_write_file, open_for_write}
use fur_os.Disk.Store.{disk_load_fs, disk_payload_max}
use fur_os.Desktop.Kate.{
  Kate, kate_insert, kate_backspace, kate_delkey, kate_key, kate_home, kate_colof,
}
use fur_os.Desktop.Kate.Shift.{IsKate}
use fur_os.Desktop.Kate.Text.{doc, put_char, erase_before, erase_after, doc-edits}
use fur_os.Desktop.Kate.Lines.{kate_key-IsKate, kate_home-kate_colof}
use fur_os.Desktop.Kate.Save.{Desk, kate_save, kate_create}
use fur_os.Desktop.Kate.Save.Sound.{HasText, kate_save-disk_load_fs}
use fur_os.Tests.DiskImage.{memory, memory_keeps, empty_disk, healthy, large}
use fur_os.KString.Bytes.{replicate-IsBytes, all_bytes, all_bytes-IsBytes}
use fur_os.Fs.Image.Bytes.{fs_init-HasBytes}

-- The cursor stands between the two letters of the second line.
abbrev two_lines : Kate
two_lines = record {
  kate_buf = codes "hi\nyo" ++ replicate 4091 0;
  kate_len = 5;
  kate_pos = 4;
  kate_mod = false;
}

two_lines-IsKate : IsKate two_lines
two_lines-IsKate = record { buf = refl; room = omega arith; cursor = omega arith }

doc-edits_example :
    (doc (kate_insert two_lines 33) ≡ put_char 33 (doc two_lines))
    × (doc (kate_backspace two_lines) ≡ erase_before (doc two_lines))
    × (doc (kate_delkey two_lines) ≡ erase_after (doc two_lines))
doc-edits_example = doc-edits two_lines 33 two_lines-IsKate

kate_key-IsKate_example : IsKate (kate_key two_lines 0x100)
kate_key-IsKate_example = kate_key-IsKate two_lines two_lines-IsKate 0x100

kate_home-kate_colof_example : (kate_home two_lines).kate_pos + kate_colof two_lines 4 ≡ 4
kate_home-kate_colof_example = kate_home-kate_colof two_lines two_lines-IsKate

-- A new file `note` in the root of an empty tree.
abbrev new_note : Desk memory
new_note = record {
  kate = two_lines;
  file = record { kate_fname = codes "note"; kate_node = none; kate_cwd_nd = 0 };
  nodes = fs_init;
  disk = empty_disk;
}

note_saved : (kate_save memory new_note).0 ≡ ok
unfolding kate_save kate_create fs_touch fs_touch_as touch_at fs_write_file open_for_write
    fs_resolve resolve_from enter resolve_parent_and_leaf find_child alloc_node is_valid_name
    kstrlen kstrcmp kstrncpy kstrcpy kmemcpy str_eq scan zeros last_slash fs_init
note_saved = refl

abbrev saved_nodes : Nodes
saved_nodes = (kate_save memory new_note).1.nodes

kate_save-disk_load_fs_example :
    IsFileSystem saved_nodes
    × HasText new_note saved_nodes
    × ((disk_load_fs memory (kate_save memory new_note).1.disk fs_init).0 ≡ ok)
    × ((disk_load_fs memory (kate_save memory new_note).1.disk fs_init).2
        ≡ set saved_nodes 0 (make_root (node_at saved_nodes 0)))
kate_save-disk_load_fs_example =
    kate_save-disk_load_fs memory memory_keeps new_note fs_init fs_init-IsFileSystem
      fs_init-IsFileSystem.files.tree.root two_lines-IsKate healthy large refl
      (length-replicate {A = ℕ} disk_payload_max 0)
      (replicate-IsBytes disk_payload_max 0 (omega arith)) fs_init-HasBytes
      (all_bytes-IsBytes (codes "note") (unfold all_bytes in refl))
      (all_bytes-IsBytes two_lines.kate_buf (unfold all_bytes in refl)) note_saved
