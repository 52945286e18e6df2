-- ===== src/KString/Bytes.antt =====
-- kstring.c: memory whose bytes are bytes, and the copies of it.
use fur_os.Prelude.{
  ℕ, zero, suc, ◌<◌, ◌≡◌, Bool, true, ◌&&◌, List, [], ◌∷◌, ◌++◌, take, drop, replicate, arith, ltb,
}
use fur_os.KString.{byte_at, kmemcpy}

-- Whether every byte of a buffer is one.
unfoldable pub IsBytes : List ℕ → Type 0
IsBytes buffer = (i : ℕ) → byte_at buffer i < 256

pub nil-IsBytes : IsBytes []
unfolding IsBytes
nil-IsBytes i = omega arith

pub cons-IsBytes : (b : ℕ) (bs : List ℕ) → b < 256 → IsBytes bs → IsBytes (b ∷ bs)
unfolding IsBytes
cons-IsBytes b bs h r zero = h
cons-IsBytes b bs h r (suc i) = r i

pub head-IsBytes : (b : ℕ) (bs : List ℕ) → IsBytes (b ∷ bs) → b < 256
unfolding IsBytes
head-IsBytes b bs h = h 0

pub tail-IsBytes : (b : ℕ) (bs : List ℕ) → IsBytes (b ∷ bs) → IsBytes bs
unfolding IsBytes
tail-IsBytes b bs h i = h (suc i)

pub append-IsBytes : (xs bs : List ℕ) → IsBytes xs → IsBytes bs → IsBytes (xs ++ bs)
append-IsBytes [] bs h k = k
append-IsBytes (a ∷ xs) bs h k =
    cons-IsBytes a (xs ++ bs) (head-IsBytes a xs h) (append-IsBytes xs bs (tail-IsBytes a xs h) k)

pub take-IsBytes : (n : ℕ) (bs : List ℕ) → IsBytes bs → IsBytes (take n bs)
take-IsBytes zero bs h = nil-IsBytes
take-IsBytes (suc n) [] h = nil-IsBytes
take-IsBytes (suc n) (b ∷ bs) h =
    cons-IsBytes b (take n bs) (head-IsBytes b bs h) (take-IsBytes n bs (tail-IsBytes b bs h))

pub drop-IsBytes : (n : ℕ) (bs : List ℕ) → IsBytes bs → IsBytes (drop n bs)
drop-IsBytes zero bs h = h
drop-IsBytes (suc n) [] h = h
drop-IsBytes (suc n) (b ∷ bs) h = drop-IsBytes n bs (tail-IsBytes b bs h)

pub replicate-IsBytes : (n b : ℕ) → b < 256 → IsBytes (replicate n b)
replicate-IsBytes zero b h = nil-IsBytes
replicate-IsBytes (suc n) b h = cons-IsBytes b (replicate n b) h (replicate-IsBytes n b h)

pub kmemcpy-IsBytes :
    (dst src : List ℕ) (count : ℕ) → IsBytes dst → IsBytes src → IsBytes (kmemcpy dst src count)
unfolding kmemcpy
kmemcpy-IsBytes dst src zero h k = h
kmemcpy-IsBytes [] src (suc n) h k = h
kmemcpy-IsBytes (d ∷ dst) [] (suc n) h k =
    cons-IsBytes 0 (kmemcpy dst [] n) (omega arith)
      (kmemcpy-IsBytes dst [] n (tail-IsBytes d dst h) k)
kmemcpy-IsBytes (d ∷ dst) (s ∷ src) (suc n) h k =
    cons-IsBytes s (kmemcpy dst src n) (head-IsBytes s src k)
      (kmemcpy-IsBytes dst src n (tail-IsBytes d dst h) (tail-IsBytes s src k))

-- The test of a text that is given.
unfoldable pub all_bytes : List ℕ → Bool
all_bytes [] = true
all_bytes (b ∷ bs) = ltb b 256 && all_bytes bs

pub all_bytes-IsBytes : (bs : List ℕ) → all_bytes bs ≡ true → IsBytes bs
unfolding all_bytes
all_bytes-IsBytes [] h = nil-IsBytes
all_bytes-IsBytes (b ∷ bs) h =
    cons-IsBytes b bs (ground (arith, h)) (all_bytes-IsBytes bs (ground (arith, h)))
