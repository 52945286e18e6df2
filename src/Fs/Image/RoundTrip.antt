-- ===== src/Fs/Image/RoundTrip.antt =====
-- `fs_deserialize` reads back what `fs_serialize` wrote.
use mathlib.Core.List.{append_assoc}
use fur_os.Prelude.{
  ℕ, suc, ◌+◌, ◌*◌, ◌≤◌, ◌<◌, ◌^◌, ◌≡◌, refl, sym, ◌∙◌, ap, Bool, true, false, not, some, List, [],
  ◌∷◌, ◌++◌, arith, length, take, drop, set, get_or, ◌==◌, length-append, take-append, drop-append,
  set_there,
}
use fur_os.Prelude.Int.{is_zero}
use fur_os.KString.{kstrncmp}
use fur_os.Fs.Node.{Node, Nodes, node_at, make_root, ok, mode_bits, fs_max_nodes}
use fur_os.Fs.Files.{clamp_size}
use fur_os.Fs.Layout.{IsLaidOut}
use fur_os.Fs.System.{IsFileSystem}
use fur_os.Fs.Image.{
  put16, put32, get16, get32, put_node, put_nodes, raw_node, get_node, get_nodes, close_node,
  fs_serialize, fs_deserialize, read_nodes, install_nodes, header_size, disk_node_size, fs_magic,
  bit_byte,
}

pub get32-put32 : (x : ℕ) (rest : List ℕ) → x < 2 ^ 32 → get32 (put32 x rest) ≡ x
unfolding get32 put32
get32-put32 x rest h = omega arith

pub get16-put16 : (x : ℕ) (rest : List ℕ) → x < 2 ^ 16 → get16 (put16 x rest) ≡ x
unfolding get16 put16
get16-put16 x rest h = omega arith

flag : (b : Bool) → not (bit_byte b == 0) ≡ b
flag true = refl
flag false = refl

take_exact : (n : ℕ) (xs ys : List ℕ) → length xs ≡ n → take n (xs ++ ys) ≡ xs
take_exact n xs ys e = rw (← e) (take-append xs ys)

drop_exact : (n : ℕ) (xs ys : List ℕ) → length xs ≡ n → drop n (xs ++ ys) ≡ ys
drop_exact n xs ys e = rw (← e) (drop-append xs ys)

set_zero : (xs : List ℕ) (i : ℕ) → get_or xs i 0 ≡ 0 → set xs i 0 ≡ xs
set_zero xs i e = ap (set xs i) (sym e) ∙ set_there xs i 0

-- The closing of a node that is closed.
close_node_laid_out : (n : Node) → IsLaidOut n → close_node n ≡ n
close_node_laid_out n v =
    let c : clamp_size n.size ≡ n.size = ground (arith, v.size) in
    ground (arith, c, set_zero n.name 31 v.name_end, set_zero n.contents n.size v.contents_end)

module _ (n : Node) (rest : List ℕ) (v : IsLaidOut n) where
  mode_lem :
      mode_bits (get16 (put16 n.mode (put32 n.size (n.name ++ (n.contents ++ rest))))) ≡ n.mode
  mode_lem =
      rw
        (get16-put16 n.mode (put32 n.size (n.name ++ (n.contents ++ rest))) (omega (arith, v.mode)))
        (omega (arith, v.mode))

  contents_lem : take 4096 (drop 32 (n.name ++ (n.contents ++ rest))) ≡ n.contents
  contents_lem =
      rw (drop_exact 32 n.name (n.contents ++ rest) v.name_size)
        (take_exact 4096 n.contents rest v.contents_size)

  raw_node-put_node : raw_node (put_node n rest) ≡ n
  unfolding put_node put32 put16
  raw_node-put_node = λ i. record {
    used = flag n.used i;
    is_dir = flag n.is_dir i;
    parent =
        get32-put32 n.parent
          (put16 n.owner (put16 n.mode (put32 n.size (n.name ++ (n.contents ++ rest)))))
          (omega (arith, v.parent)) i;
    owner =
        get16-put16 n.owner (put16 n.mode (put32 n.size (n.name ++ (n.contents ++ rest)))) v.owner
          i;
    mode = mode_lem i;
    size = get32-put32 n.size (n.name ++ (n.contents ++ rest)) (omega (arith, v.size)) i;
    name = take_exact 32 n.name (n.contents ++ rest) v.name_size i;
    contents = contents_lem i;
  }

pub get_node-put_node : (n : Node) (rest : List ℕ) → IsLaidOut n → get_node (put_node n rest) ≡ n
unfolding get_node
get_node-put_node n rest v = ap close_node (raw_node-put_node n rest v) ∙ close_node_laid_out n v

drop-put_node :
    (n : Node) (rest : List ℕ) → IsLaidOut n → drop disk_node_size (put_node n rest) ≡ rest
unfolding put_node put32 put16
drop-put_node n rest v =
    ap (drop 4128) (sym (append_assoc n.name n.contents rest))
    ∙ drop_exact 4128 (n.name ++ n.contents) rest
        (omega (arith, length-append n.name n.contents, v.name_size, v.contents_size))

length-put_node :
    (n : Node) (rest : List ℕ)
    → IsLaidOut n
    → length (put_node n rest) ≡ disk_node_size + length rest
unfolding put_node put32 put16
length-put_node n rest v = omega (
  arith,
  length-append n.name (n.contents ++ rest),
  length-append n.contents rest,
  v.name_size,
  v.contents_size,
)

AllOf : Nodes → Type 0
AllOf [] = Unit {0}
AllOf (n ∷ t) = IsLaidOut n × AllOf t

AllLaidOut-AllOf : (t : Nodes) → ((i : ℕ) → IsLaidOut (node_at t i)) → AllOf t
unfolding AllOf
AllLaidOut-AllOf [] v = tt
AllLaidOut-AllOf (n ∷ t) v = (v 0, AllLaidOut-AllOf t (λ i. v (suc i)))

get_nodes-put_nodes :
    (t : Nodes) → AllOf t → get_nodes get_node disk_node_size (length t) (put_nodes t) ≡ t
unfolding get_nodes put_nodes AllOf
get_nodes-put_nodes [] v = refl
get_nodes-put_nodes (n ∷ t) v = rw (
  get_node-put_node n (put_nodes t) v.0,
  drop-put_node n (put_nodes t) v.0,
  get_nodes-put_nodes t v.1,
)

length-put_nodes : (t : Nodes) → AllOf t → length (put_nodes t) ≡ disk_node_size * length t
unfolding put_nodes AllOf
length-put_nodes [] v = omega arith
length-put_nodes (n ∷ t) v =
    omega (arith, length-put_node n (put_nodes t) v.0, length-put_nodes t v.1)

-- The image of a file system.
unfoldable pub image : Nodes → List ℕ
image t = fs_magic ++ (0 ∷ put32 2 (put32 fs_max_nodes (put_nodes t)))

pub length-image :
    (t : Nodes) → IsFileSystem t → length (image t) ≡ header_size + disk_node_size * fs_max_nodes
unfolding image put32
length-image t v =
    omega (arith, length-put_nodes t (AllLaidOut-AllOf t v.layout.at), v.files.tree.table)

-- With room for all of it, `fs_serialize` writes the whole image of a file system.
pub fs_serialize-image :
    (t : Nodes) (max_len : ℕ)
    → header_size + disk_node_size * fs_max_nodes ≤ max_len
    → fs_serialize t max_len ≡ some (image t)
unfolding fs_serialize image
fs_serialize-image t max_len h = ground arith

module _ (t : Nodes) (v : IsFileSystem t) where
  image_magic : is_zero (kstrncmp (image t) fs_magic 7) ≡ true
  unfolding image kstrncmp
  image_magic = refl

  image_version : get32 (drop 8 (image t)) ≡ 2
  unfolding image
  image_version = get32-put32 2 (put32 128 (put_nodes t)) (omega arith)

  image_count : get32 (drop 12 (image t)) ≡ 128
  unfolding image put32
  image_count = get32-put32 128 (put_nodes t) (omega arith)

  image_nodes : get_nodes get_node disk_node_size 128 (drop 16 (image t)) ≡ t
  unfolding image put32
  image_nodes = rw (← v.files.tree.table) (get_nodes-put_nodes t (AllLaidOut-AllOf t v.layout.at))

  install_root : install_nodes t ≡ (ok, set t 0 (make_root (node_at t 0)))
  unfolding install_nodes
  install_root = ground (arith, v.files.tree.root)

  read_image :
      (old : Nodes)
      → read_nodes old (image t) get_node disk_node_size ≡ (ok, set t 0 (make_root (node_at t 0)))
  unfolding read_nodes
  read_image old = rw (length-image t v, image_nodes) install_root

  deserialize_image :
      (old : Nodes) → fs_deserialize old (image t) ≡ (ok, set t 0 (make_root (node_at t 0)))
  unfolding fs_deserialize
  deserialize_image old =
      rw (length-image t v, image_magic, image_count, image_version) (read_image old)

-- The image that `fs_serialize` writes of a file system, given enough room, is one that
-- `fs_deserialize` accepts whatever the table held before, and the table is then the one that was
-- written, with the name, the owner, the mode and the parent of the root set as `fs_init` sets them.
pub deserialize-serialize :
    (old t : Nodes) (max_len : ℕ) (bytes : List ℕ)
    → IsFileSystem t
    → fs_serialize t max_len ≡ some bytes
    → fs_deserialize old bytes ≡ (ok, set t 0 (make_root (node_at t 0)))
deserialize-serialize old t max_len bytes v h =
    let e : bytes ≡ image t = unfold fs_serialize image in ground arith in
    rw e (deserialize_image t v old)
