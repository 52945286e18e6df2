-- ===== src/Desktop/Kate/Save/Sound.antt =====
-- kernel/desktop.c: what the editor has saved is in the tree and on the disk.
use fur_os.Prelude.{ℕ, ◌≤◌, ◌≡◌, refl, List, true, set, arith, length, option_branch}
use fur_os.Fs.Node.{Nodes, Status, ok, node_at, make_root, status_branch}
use fur_os.KString.Bytes.{IsBytes}
use fur_os.Fs.Image.Bytes.{HasBytes}
use fur_os.Fs.Image.Kept.{fs_touch-HasBytes, fs_write_file-HasBytes}
use fur_os.Fs.Tree.{IsDirectory}
use fur_os.Fs.System.{IsFileSystem, Step, Step-IsFileSystem}
use fur_os.Fs.System.Directories.{fs_touch_as-IsDirectory}
use fur_os.Fs.Create.{fs_touch}
use fur_os.Fs.Files.{fs_write_file, clamp_size}
use fur_os.Fs.Files.Contents.{Reads, read-write}
use fur_os.Disk.Drive.{Drive, Keeps}
use fur_os.Disk.Store.{disk_available, disk_save_fs, disk_load_fs, disk_payload_max}
use fur_os.Disk.SaveLoad.{load-save}
use fur_os.Desktop.Kate.Shift.{IsKate}
use fur_os.Desktop.Kate.Save.{Desk, kate_create, kate_save}

-- The file has the text of the editor.
abbrev pub HasText : {a : Drive} → Desk a → Nodes → Type 0
HasText s t = Reads t s.file.kate_cwd_nd s.file.kate_fname s.kate.kate_buf s.kate.kate_len

module _ (a : Drive) (s : Desk a) (v : IsFileSystem s.nodes)
    (d : IsDirectory s.nodes s.file.kate_cwd_nd) where
  kate_create-IsFileSystem : IsFileSystem (kate_create a s).1
  unfolding kate_create fs_touch
  kate_create-IsFileSystem =
      let cwd : ℕ = s.file.kate_cwd_nd in
      option_branch (λ (r : Status × Nodes). IsFileSystem r.1) s.file.kate_node
        (λ e.
          Step-IsFileSystem (Step.touch s.nodes cwd s.file.kate_fname 0 0o644 d (omega arith)) v)
        (λ node e. v)

  kate_create-IsDirectory : IsDirectory (kate_create a s).1 s.file.kate_cwd_nd
  unfolding kate_create fs_touch
  kate_create-IsDirectory =
      let cwd : ℕ = s.file.kate_cwd_nd in
      option_branch (λ (r : Status × Nodes). IsDirectory r.1 cwd) s.file.kate_node
        (λ e. fs_touch_as-IsDirectory s.nodes cwd cwd s.file.kate_fname v.files.tree d 0 0o644)
        (λ node e. d)

  -- The tree that the write leaves.
  abbrev wrote : Status × Nodes
  wrote =
      fs_write_file (kate_create a s).1 s.file.kate_cwd_nd s.file.kate_fname s.kate.kate_buf
        s.kate.kate_len

  wrote-IsFileSystem : IsFileSystem wrote.1
  wrote-IsFileSystem =
      Step-IsFileSystem
        (Step.write (kate_create a s).1 s.file.kate_cwd_nd s.file.kate_fname s.kate.kate_buf
          s.kate.kate_len kate_create-IsDirectory)
        kate_create-IsFileSystem

  kate_save-IsFileSystem : IsFileSystem (kate_save a s).1.nodes
  unfolding kate_save
  kate_save-IsFileSystem =
      let P : Status × Desk a → Type 0 = λ r. IsFileSystem r.1.nodes in
      status_branch P (kate_create a s).0
        (λ e. status_branch P wrote.0 (λ e. wrote-IsFileSystem) (λ e. wrote-IsFileSystem))
        (λ e. kate_create-IsFileSystem)

  wrote-HasText : IsKate s.kate → wrote.0 ≡ ok → HasText s wrote.1
  wrote-HasText k e =
      let size : clamp_size s.kate.kate_len ≡ s.kate.kate_len = ground (arith, k.room) in
      rw size at (
        read-write (kate_create a s).1 s.file.kate_cwd_nd s.file.kate_fname s.kate.kate_buf
          s.kate.kate_len kate_create-IsFileSystem kate_create-IsDirectory
          (omega (arith, size, k.buf, k.room)) e)

  kate_save-HasText : IsKate s.kate → (kate_save a s).0 ≡ ok → HasText s (kate_save a s).1.nodes
  unfolding kate_save
  kate_save-HasText k =
      let P : Status × Desk a → Type 0 = λ r. r.0 ≡ ok → HasText s r.1.nodes in
      status_branch P (kate_create a s).0
        (λ e. status_branch P wrote.0 (λ w h. wrote-HasText k w) (λ w h. absurd (cc h)))
        (λ e h. absurd (cc h))

kate_save-disk :
    (a : Drive) (s : Desk a)
    → disk_available a s.disk ≡ true
    → (kate_save a s).0 ≡ ok
    → (kate_save a s).1.disk ≡ (disk_save_fs a s.disk (kate_save a s).1.nodes).1
unfolding kate_save
kate_save-disk a s live =
    let P : Status × Desk a → Type 0 =
      λ r. r.0 ≡ ok → r.1.disk ≡ (disk_save_fs a s.disk r.1.nodes).1 in
    let w =
      fs_write_file (kate_create a s).1 s.file.kate_cwd_nd s.file.kate_fname s.kate.kate_buf
        s.kate.kate_len in
    status_branch P (kate_create a s).0
      (λ e. status_branch P (w.0) (λ w h. rw live refl) (λ w h. absurd (cc h)))
      (λ e h. absurd (cc h))

kate_save-HasBytes :
    (a : Drive) (s : Desk a)
    → HasBytes s.nodes
    → IsBytes s.file.kate_fname
    → IsBytes s.kate.kate_buf
    → HasBytes (kate_save a s).1.nodes
unfolding kate_save kate_create
kate_save-HasBytes a s v n b =
    let P : Status × Desk a → Type 0 = λ r. HasBytes r.1.nodes in
    let cwd : ℕ = s.file.kate_cwd_nd in
    let name : List ℕ = s.file.kate_fname in
    let c : HasBytes (kate_create a s).1 =
      option_branch (λ (r : Status × Nodes). HasBytes r.1) s.file.kate_node
        (λ e. fs_touch-HasBytes s.nodes v cwd name n) (λ node e. v) in
    let w : HasBytes
        (fs_write_file (kate_create a s).1 cwd name s.kate.kate_buf s.kate.kate_len).1 =
      fs_write_file-HasBytes (kate_create a s).1 c cwd name n s.kate.kate_buf s.kate.kate_len b in
    status_branch P (kate_create a s).0
      (λ e.
        status_branch P
          (fs_write_file (kate_create a s).1 cwd name s.kate.kate_buf s.kate.kate_len).0 (λ e. w)
          (λ e. w))
      (λ e. c)

-- In a file system of names and contents that are bytes, with the editor's directory in use, bytes
-- for its file name and its text, and a healthy disk of at least 6144 sectors selected, with a
-- payload buffer of full size that holds bytes: where `kate_save` returns 0, the tree is a file
-- system still, the file in it has the text of the editor, and loading the disk succeeds, whatever
-- the table holds then, and gives that tree, with the root as `fs_init` sets it.
pub kate_save-disk_load_fs :
    (a : Drive) (keeps : Keeps a) (s : Desk a) (old : Nodes)
    → IsFileSystem s.nodes
    → IsDirectory s.nodes s.file.kate_cwd_nd
    → IsKate s.kate
    → keeps.IsHealthy s.disk.drive
    → 6144 ≤ keeps.capacity
    → disk_available a s.disk ≡ true
    → length s.disk.g_payload ≡ disk_payload_max
    → IsBytes s.disk.g_payload
    → HasBytes s.nodes
    → IsBytes s.file.kate_fname
    → IsBytes s.kate.kate_buf
    → (kate_save a s).0 ≡ ok
    → IsFileSystem (kate_save a s).1.nodes
      × HasText s (kate_save a s).1.nodes
      × ((disk_load_fs a (kate_save a s).1.disk old).0 ≡ ok)
      × ((disk_load_fs a (kate_save a s).1.disk old).2
          ≡ set (kate_save a s).1.nodes 0 (make_root (node_at (kate_save a s).1.nodes 0)))
kate_save-disk_load_fs a keeps s old v d k healthy big live room buffer plain name text h =
    let files : IsFileSystem (kate_save a s).1.nodes = kate_save-IsFileSystem a s v d in
    let (saved, done, same) =
      load-save a keeps s.disk (kate_save a s).1.nodes old healthy big live room buffer files
        (kate_save-HasBytes a s plain name text) in
    rw (kate_save-disk a s live h) (files, kate_save-HasText a s v d k h, done, same)
