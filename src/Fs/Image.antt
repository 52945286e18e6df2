-- ===== src/Fs/Image.antt =====
-- kernel/fs.c: `fs_serialize` and `fs_deserialize`, with the packed structures of the image.
--
-- An image is the list of its bytes, least significant byte first as the machine stores them.
pub mod RoundTrip
pub mod Bytes
pub mod Kept
use fur_os.Prelude.{
  ℕ, zero, suc, ◌+◌, ◌*◌, ◌/◌, ◌%◌, Bool, ◌||◌, not, Option, none, some, List, [], ◌∷◌, ◌++◌,
  length, take, drop, set, ltb, ◌==◌, if◌then◌else◌, codes,
}
use fur_os.Prelude.Int.{is_zero}
use fur_os.KString.{byte_at, kstrncmp}
use fur_os.Fs.Node.{
  Node, Nodes, node_at, make_root, fs_init, Status, ok, fail, mode_bits, fs_max_nodes, fs_max_name,
  fs_max_file_size, fs_default_dir_mode, fs_default_file_mode,
}
use fur_os.Fs.Files.{clamp_size}

abbrev pub bit_byte : Bool → ℕ
bit_byte b = if b then 1 else 0

-- The bytes of a `uint16_t` and of a `uint32_t` (an `int32_t` by its pattern).
unfoldable pub put16 : ℕ → List ℕ → List ℕ
put16 x rest = x % 256 ∷ x / 256 % 256 ∷ rest

unfoldable pub put32 : ℕ → List ℕ → List ℕ
put32 x rest = x % 256 ∷ x / 256 % 256 ∷ x / 65536 % 256 ∷ x / 16777216 % 256 ∷ rest

unfoldable pub get16 : List ℕ → ℕ
get16 b = byte_at b 0 + 256 * byte_at b 1

unfoldable pub get32 : List ℕ → ℕ
get32 b = byte_at b 0 + 256 * byte_at b 1 + 65536 * byte_at b 2 + 16777216 * byte_at b 3

-- sizeof(struct fs_disk_header)
abbrev pub header_size : ℕ
header_size = 16

-- sizeof(struct fs_disk_node), sizeof(struct fs_disk_node_v1)
abbrev pub disk_node_size : ℕ
disk_node_size = 14 + (fs_max_name + 1) + fs_max_file_size

abbrev pub disk_node_v1_size : ℕ
disk_node_v1_size = 10 + (fs_max_name + 1) + fs_max_file_size

-- The `struct fs_disk_node` that is filled from a node.
unfoldable pub put_node : Node → List ℕ → List ℕ
put_node n rest =
    bit_byte n.used
    ∷ bit_byte n.is_dir
    ∷ put32 n.parent (put16 n.owner (put16 n.mode (put32 n.size (n.name ++ (n.contents ++ rest)))))

unfoldable pub put_nodes : Nodes → List ℕ
put_nodes [] = []
put_nodes (n ∷ t) = put_node n (put_nodes t)

-- "FURFSv1"
abbrev pub fs_magic : List ℕ
fs_magic = codes "FURFSv1"

-- The bytes that are written, the number of which is returned; `none` where it returns 0.
unfoldable pub fs_serialize : Nodes → ℕ → Option (List ℕ)
fs_serialize t max_len =
    if ltb max_len (header_size + disk_node_size * fs_max_nodes)
    then none
    else some (fs_magic ++ (0 ∷ put32 2 (put32 fs_max_nodes (put_nodes t))))

-- The clamped size, the closed name and the closed contents, in both branches of the loop.
abbrev pub close_node : Node → Node
close_node n = record n {
  size = clamp_size n.size;
  name = set n.name fs_max_name 0;
  contents = set n.contents (clamp_size n.size) 0;
}

-- The node that is read at the front of the bytes, by version 1 and by version 2.
unfoldable pub get_node_v1 : List ℕ → Node
get_node_v1 b =
    let is_dir = not (byte_at b 1 == 0) in
    close_node (record {
      used = not (byte_at b 0 == 0);
      is_dir = is_dir;
      parent = get32 (drop 2 b);
      owner = 0;
      mode = if is_dir then fs_default_dir_mode else fs_default_file_mode;
      size = get32 (drop 6 b);
      name = take (fs_max_name + 1) (drop 10 b);
      contents = take fs_max_file_size (drop (fs_max_name + 1) (drop 10 b));
    })

abbrev pub raw_node : List ℕ → Node
raw_node b = record {
  used = not (byte_at b 0 == 0);
  is_dir = not (byte_at b 1 == 0);
  parent = get32 (drop 2 b);
  owner = get16 (drop 6 b);
  mode = mode_bits (get16 (drop 8 b));
  size = get32 (drop 10 b);
  name = take (fs_max_name + 1) (drop 14 b);
  contents = take fs_max_file_size (drop (fs_max_name + 1) (drop 14 b));
}

unfoldable pub get_node : List ℕ → Node
get_node b = close_node (raw_node b)

-- The loop over the nodes that are left.
unfoldable pub get_nodes : (List ℕ → Node) → ℕ → ℕ → List ℕ → Nodes
get_nodes get size zero b = []
get_nodes get size (suc k) b = get b ∷ get_nodes get size k (drop size b)

-- From the zeroed table on: the loop, and the check of the root.
unfoldable pub install_nodes : Nodes → Status × Nodes
install_nodes t =
    if not (node_at t 0).used || not (node_at t 0).is_dir
    then (fail, fs_init)
    else (ok, set t 0 (make_root (node_at t 0)))

unfoldable pub read_nodes : Nodes → List ℕ → (List ℕ → Node) → ℕ → Status × Nodes
read_nodes old input get size =
    if ltb (length input) (header_size + size * fs_max_nodes)
    then (fail, old)
    else install_nodes (get_nodes get size fs_max_nodes (drop header_size input))

-- `in` is the list of the `len` bytes. The table is as it was where the source returns early.
unfoldable pub fs_deserialize : Nodes → List ℕ → Status × Nodes
fs_deserialize old input =
    if ltb (length input) header_size
    then (fail, old)
    else if not (is_zero (kstrncmp input fs_magic 7)) || not (get32 (drop 12 input) == fs_max_nodes)
    then (fail, old)
    else if get32 (drop 8 input) == 1
    then read_nodes old input get_node_v1 disk_node_v1_size
    else if get32 (drop 8 input) == 2
    then read_nodes old input get_node disk_node_size
    else (fail, old)
