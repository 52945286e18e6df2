-- ===== src/KString.antt =====
-- kernel/kstring.c: memory and C strings.
--
-- A piece of memory is the list of its bytes. A C string is a list that ends at its first zero
-- byte, or at its end; a null pointer takes the branches of the empty string. A write past the
-- end of a list changes nothing: callers are shown to stay inside.
pub mod Copy
pub mod Bytes
pub mod Compare
use fur_os.Prelude.{
  ℕ, zero, suc, ◌%◌, List, [], ◌∷◌, Bool, true, false, ◌&&◌, not, ◌==◌, if◌then◌else◌, get_or,
}
use fur_os.Prelude.Int.{ℤ, sub_ℕ, is_zero}

-- s[i]
abbrev pub byte_at : List ℕ → ℕ → ℕ
byte_at s i = get_or s i 0

-- The loop over `i`, with `count - i` rounds left.
unfoldable pub kmemset : List ℕ → ℕ → ℕ → List ℕ
kmemset dst value zero = dst
kmemset [] value (suc count) = []
kmemset (d ∷ dst) value (suc count) = value % 256 ∷ kmemset dst value count

unfoldable pub kmemcpy : List ℕ → List ℕ → ℕ → List ℕ
kmemcpy dst src zero = dst
kmemcpy [] src (suc count) = []
kmemcpy (d ∷ dst) [] (suc count) = 0 ∷ kmemcpy dst [] count
kmemcpy (d ∷ dst) (s ∷ src) (suc count) = s ∷ kmemcpy dst src count

unfoldable pub kstrlen : List ℕ → ℕ
kstrlen [] = 0
kstrlen (c ∷ s) = if c == 0 then 0 else suc (kstrlen s)

-- A list that has ended holds the terminator.
unfoldable pub kstrcmp : List ℕ → List ℕ → ℤ
kstrcmp [] [] = sub_ℕ 0 0
kstrcmp [] (b ∷ bs) = sub_ℕ 0 b
kstrcmp (a ∷ as') [] = sub_ℕ a 0
kstrcmp (a ∷ as') (b ∷ bs) =
    if not (a == 0) && (not (b == 0) && a == b) then kstrcmp as' bs else sub_ℕ a b

unfoldable pub kstrncmp : List ℕ → List ℕ → ℕ → ℤ
kstrncmp a b zero = sub_ℕ 0 0
kstrncmp [] [] (suc n) = sub_ℕ 0 0
kstrncmp [] (b ∷ bs) (suc n) = sub_ℕ 0 b
kstrncmp (a ∷ as') [] (suc n) = sub_ℕ a 0
kstrncmp (a ∷ as') (b ∷ bs) (suc n) =
    if not (a == 0) && (not (b == 0) && a == b) then kstrncmp as' bs n else sub_ℕ a b

unfoldable pub kstrcpy : List ℕ → List ℕ → List ℕ
kstrcpy [] src = []
kstrcpy (d ∷ dst) [] = 0 ∷ dst
kstrcpy (d ∷ dst) (c ∷ src) = if c == 0 then 0 ∷ dst else c ∷ kstrcpy dst src

-- The first loop copies, the second fills the rest with zeros.
unfoldable pub kstrncpy : List ℕ → List ℕ → ℕ → List ℕ
unfolding kmemset
kstrncpy dst src zero = dst
kstrncpy [] src (suc n) = []
kstrncpy (d ∷ dst) [] (suc n) = kmemset (d ∷ dst) 0 (suc n)
kstrncpy (d ∷ dst) (c ∷ src) (suc n) =
    if c == 0 then kmemset (d ∷ dst) 0 (suc n) else c ∷ kstrncpy dst src n

-- `kstrcmp(a, b) == 0`
unfoldable pub str_eq : List ℕ → List ℕ → Bool
unfolding kstrcmp
str_eq a b = is_zero (kstrcmp a b)
