-- ===== src/Fs/Image/Bytes.antt =====
-- kernel/fs.c: an image of bytes, of a table whose names and contents are bytes.
use fur_os.Prelude.{ℕ, suc, ◌<◌, refl, Bool, List, [], ◌∷◌, arith, ◌==◌, branch, subst, sym}
use fur_os.KString.{kstrcpy}
use fur_os.KString.Bytes.{
  IsBytes, nil-IsBytes, cons-IsBytes, append-IsBytes, replicate-IsBytes, all_bytes,
  all_bytes-IsBytes,
}
use fur_os.Fs.Node.{Node, Nodes, node_at, blank, make_root, fs_init, zeros}
use fur_os.Fs.Image.{bit_byte, put16, put32, put_node, put_nodes, fs_magic}
use fur_os.Fs.Image.RoundTrip.{image}
use fur_os.Fs.System.{fs_init-node}

pub put16-IsBytes : (x : ℕ) (rest : List ℕ) → IsBytes rest → IsBytes (put16 x rest)
unfolding put16
put16-IsBytes x rest h = cons-IsBytes _ _ (omega arith) (cons-IsBytes _ rest (omega arith) h)

pub put32-IsBytes : (x : ℕ) (rest : List ℕ) → IsBytes rest → IsBytes (put32 x rest)
unfolding put32
put32-IsBytes x rest h = cons-IsBytes _ _ (omega arith) (
    cons-IsBytes _ _ (omega arith)
      (cons-IsBytes _ _ (omega arith) (cons-IsBytes _ rest (omega arith) h)))

-- The names and the contents of a table are bytes.
pub record HasBytes (t : Nodes) : Type 0 where
  pub name : (i : ℕ) → IsBytes (node_at t i).name
  pub contents : (i : ℕ) → IsBytes (node_at t i).contents

bit_byte-lt : (b : Bool) → bit_byte b < 256
bit_byte-lt b = ground arith

put_node-IsBytes :
    (n : Node) (rest : List ℕ)
    → IsBytes n.name
    → IsBytes n.contents
    → IsBytes rest
    → IsBytes (put_node n rest)
unfolding put_node
put_node-IsBytes n rest h k r = cons-IsBytes _ _ (bit_byte-lt n.used) (
    cons-IsBytes _ _ (bit_byte-lt n.is_dir) (
      put32-IsBytes n.parent _ (
        put16-IsBytes n.owner _ (
          put16-IsBytes n.mode _ (
            put32-IsBytes n.size _
              (append-IsBytes n.name _ h (append-IsBytes n.contents rest k r)))))))

put_nodes-IsBytes : (t : Nodes) → HasBytes t → IsBytes (put_nodes t)
unfolding put_nodes
put_nodes-IsBytes [] h = nil-IsBytes
put_nodes-IsBytes (n ∷ t) h = put_node-IsBytes n (put_nodes t) (h.name 0) (h.contents 0) (
    put_nodes-IsBytes t (record { name = λ i. h.name (suc i); contents = λ i. h.contents (suc i) }))

pub image-IsBytes : (t : Nodes) → HasBytes t → IsBytes (image t)
unfolding image
image-IsBytes t h =
    append-IsBytes fs_magic _ (all_bytes-IsBytes fs_magic (unfold all_bytes in refl)) (
      cons-IsBytes 0 _ (omega arith)
        (put32-IsBytes 2 _ (put32-IsBytes 128 _ (put_nodes-IsBytes t h))))

zeros-IsBytes : (n : ℕ) → IsBytes (zeros n)
unfolding zeros
zeros-IsBytes n = replicate-IsBytes n 0 (omega arith)

root_name : IsBytes (make_root blank).name
root_name =
    all_bytes-IsBytes (make_root blank).name (unfold all_bytes make_root kstrcpy zeros in refl)

root_contents : IsBytes (make_root blank).contents
unfolding make_root
root_contents = zeros-IsBytes 4096

pub fs_init-HasBytes : HasBytes fs_init
fs_init-HasBytes = record {
  name = λ i.
      subst (λ (n : Node). IsBytes n.name) (sym (fs_init-node i))
        (branch (λ (n : Node). IsBytes n.name) (0 == i) (λ e. root_name) (λ e. zeros-IsBytes 32));
  contents = λ i.
      subst (λ (n : Node). IsBytes n.contents) (sym (fs_init-node i))
        (branch (λ (n : Node). IsBytes n.contents) (0 == i) (λ e. root_contents)
          (λ e. zeros-IsBytes 4096));
}
