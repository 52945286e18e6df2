-- ===== src/Desktop/Kate/Save.antt =====
-- kernel/desktop.c: how the editor opens a file and saves it.
pub mod Sound
use fur_os.Prelude.{
  ℕ, ◌+◌, ◌-◌, ltb, Bool, true, false, Option, none, some, List, set, codes, if◌then◌else◌,
}
use fur_os.KString.{kmemcpy, kstrcpy, kstrncpy}
use fur_os.Fs.Node.{Nodes, Status, ok, fail, zeros, fs_get_root, fs_get_name}
use fur_os.Fs.Create.{fs_touch}
use fur_os.Fs.Files.{fs_read_file, fs_write_file}
use fur_os.Fs.MakePath.{fs_make_path}
use fur_os.Disk.Drive.{Drive}
use fur_os.Disk.Store.{Disk, disk_available, disk_save_fs}
use fur_os.Desktop.Kate.{Kate, kate_maxbuf}

-- The file of the editor; `none` is the -1 of a new one.
pub record KateFile : Type 0 where
  pub kate_fname : List ℕ
  pub kate_node : Option ℕ
  pub kate_cwd_nd : ℕ

-- The static variables of the editor, with the node table and the disk.
pub record Desk (a : Drive) : Type 0 where
  pub kate : Kate
  pub file : KateFile
  pub nodes : Nodes
  pub disk : Disk a

-- The file's bytes, at most 4095 of them, behind which `run_kate` puts the terminator.
unfoldable pub take_file : Kate → List ℕ → ℕ → Kate
take_file k fdata fsz =
    let size = if ltb (kate_maxbuf - 1) fsz then kate_maxbuf - 1 else fsz in
    record k { kate_buf = set (kmemcpy k.kate_buf fdata size) size 0; kate_len = size }

-- The start of `run_kate`. A path that `fs_make_path` does not print stays empty here.
unfoldable pub kate_open : Nodes → Kate → KateFile → Option ℕ → ℕ → Kate × KateFile
unfolding take_file
kate_open t k f fnode cwd_nd =
    let cleared : Kate = record k {
      kate_buf = set k.kate_buf 0 0;
      kate_len = 0;
      kate_pos = 0;
      kate_mod = false;
    } in
    elim fnode [
      | none ↦ (
        cleared,
        record {
          kate_fname = kstrcpy f.kate_fname (codes "untitled.txt");
          kate_node = none;
          kate_cwd_nd = cwd_nd;
        },
      )
      | some node ↦
          let name : List ℕ = elim (fs_get_name t node) [ none ↦ codes "" | some name ↦ name ] in
          let named : KateFile = record {
            kate_fname = set (kstrncpy f.kate_fname name 47) 47 0;
            kate_node = some node;
            kate_cwd_nd = cwd_nd;
          } in
          let fpath : List ℕ = elim (fs_make_path t node (zeros 80) 80) [
            | none ↦ zeros 80
            | some p ↦ p
          ] in
          elim (fs_read_file t fs_get_root fpath) [
            | none ↦ (cleared, named)
            | some (fdata, fsz) ↦
                (take_file (record k { kate_pos = 0; kate_mod = false }) fdata fsz, named)
          ]
    ]

module _ (a : Drive) where
  -- The tree in which `kate_save` writes; a new file is created first.
  unfoldable pub kate_create : Desk a → Status × Nodes
  kate_create s = elim s.file.kate_node [
    | some node ↦ (ok, s.nodes)
    | none ↦ fs_touch s.nodes s.file.kate_cwd_nd s.file.kate_fname
  ]

  unfoldable pub kate_save : Desk a → Status × Desk a
  unfolding kate_create
  kate_save s =
      let created = kate_create s in
      let w =
        fs_write_file created.1 s.file.kate_cwd_nd s.file.kate_fname s.kate.kate_buf
          s.kate.kate_len in
      let written = record s { nodes = w.1 } in
      elim (created.0) [
        | fail ↦ (fail, record s { nodes = created.1 })
        | ok ↦ elim (w.0) [
          | fail ↦ (fail, written)
          | ok ↦ (
            ok,
            record written {
              kate = record (s.kate) { kate_mod = false };
              disk = if disk_available a s.disk then (disk_save_fs a s.disk w.1).1 else s.disk;
            },
          )
        ]
      ]
