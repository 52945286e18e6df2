-- ===== src/KString/Copy.antt =====
-- kstring.c: the copies, against take and drop.
use fur_os.Prelude.{
  ℕ, ◌+◌, get_or, zero, suc, ◌≡◌, refl, ◌≤◌, ◌<◌, List, [], ◌∷◌, ◌++◌, arith, length, take, drop,
  ap,
}
use fur_os.KString.{kmemset, kmemcpy, kstrlen, kstrcpy, kstrncpy}
use fur_os.KString.Compare.{cstr}

-- `kmemcpy` puts the first `count` bytes of the source in front of what it leaves alone.
pub kmemcpy-eq :
    (dst src : List ℕ) (count : ℕ)
    → count ≤ length dst
    → count ≤ length src
    → kmemcpy dst src count ≡ take count src ++ drop count dst
unfolding kmemcpy
kmemcpy-eq dst src zero h k = refl
kmemcpy-eq [] src (suc n) h k = absurd (omega arith)
kmemcpy-eq (d ∷ dst) [] (suc n) h k = absurd (omega arith)
kmemcpy-eq (d ∷ dst) (s ∷ src) (suc n) h k =
    ap (λ r. s ∷ r) (kmemcpy-eq dst src n (omega arith) (omega arith))

pub length-kmemcpy : (dst src : List ℕ) (count : ℕ) → length (kmemcpy dst src count) ≡ length dst
unfolding kmemcpy
length-kmemcpy dst src zero = refl
length-kmemcpy [] src (suc n) = refl
length-kmemcpy (d ∷ dst) [] (suc n) = ap suc (length-kmemcpy dst [] n)
length-kmemcpy (d ∷ dst) (s ∷ src) (suc n) = ap suc (length-kmemcpy dst src n)

pub length-kmemset : (dst : List ℕ) (v count : ℕ) → length (kmemset dst v count) ≡ length dst
unfolding kmemset
length-kmemset dst v zero = refl
length-kmemset [] v (suc n) = refl
length-kmemset (d ∷ dst) v (suc n) = ap suc (length-kmemset dst v n)

pub length-kstrcpy : (dst src : List ℕ) → length (kstrcpy dst src) ≡ length dst
unfolding kstrcpy
length-kstrcpy [] src = refl
length-kstrcpy (d ∷ dst) [] = refl
length-kstrcpy (d ∷ dst) (c ∷ src) = ground (arith, length-kstrcpy dst src)

-- A string that fits with its terminator is copied whole.
pub cstr-kstrcpy : (dst src : List ℕ) → kstrlen src < length dst → cstr (kstrcpy dst src) ≡ cstr src
unfolding kstrcpy cstr kstrlen
cstr-kstrcpy [] src h = absurd (omega arith)
cstr-kstrcpy (d ∷ dst) [] h = refl
cstr-kstrcpy (d ∷ dst) (c ∷ src) h = ground (arith, cstr-kstrcpy dst src)

pub length-kstrncpy : (dst src : List ℕ) (n : ℕ) → length (kstrncpy dst src n) ≡ length dst
unfolding kstrncpy
length-kstrncpy dst src zero = refl
length-kstrncpy [] src (suc n) = refl
length-kstrncpy (d ∷ dst) [] (suc n) = ap suc (length-kmemset dst 0 n)
length-kstrncpy (d ∷ dst) (c ∷ src) (suc n) =
    ground (arith, length-kstrncpy dst src n, length-kmemset dst 0 n)

-- The last byte of an array stays zero when a string is copied in that fits.
pub kstrcpy-last :
    (dst src : List ℕ) (last : ℕ)
    → get_or dst last 0 ≡ 0
    → kstrlen src ≤ last
    → length dst ≡ last + 1
    → get_or (kstrcpy dst src) last 0 ≡ 0
unfolding kstrcpy kstrlen
kstrcpy-last [] src last z h l = refl
kstrcpy-last (d ∷ dst) [] zero z h l = refl
kstrcpy-last (d ∷ dst) [] (suc k) z h l = z
kstrcpy-last (d ∷ dst) (c ∷ src) zero z h l = ground arith
kstrcpy-last (d ∷ dst) (c ∷ src) (suc k) z h l = ground (arith, kstrcpy-last dst src k)
