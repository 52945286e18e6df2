-- ===== src/KString/Compare.antt =====
-- kstring.c: the comparisons, against equality of the bytes before the terminator.
use fur_os.Prelude.{
  sym, ◌∙◌, ◌↔◌, ap, ℕ, ◌≡◌, refl, List, [], ◌∷◌, true, ◌==◌, if◌then◌else◌, arith, length,
}
use fur_os.KString.{kstrlen, str_eq}

-- The bytes of a C string, without the terminator.
unfoldable pub cstr : List ℕ → List ℕ
cstr [] = []
cstr (c ∷ s) = if c == 0 then [] else c ∷ cstr s

pub kstrlen-eq-length : (s : List ℕ) → kstrlen s ≡ length (cstr s)
unfolding kstrlen cstr
kstrlen-eq-length [] = refl
kstrlen-eq-length (c ∷ s) = ground (arith, kstrlen-eq-length s)

pub str_eq_sound : (a b : List ℕ) → str_eq a b ≡ true → cstr a ≡ cstr b
unfolding str_eq cstr
str_eq_sound [] [] h = refl
str_eq_sound [] (b ∷ bs) h = ground arith
str_eq_sound (a ∷ xs) [] h = ground arith
str_eq_sound (a ∷ xs) (b ∷ bs) h = ground (arith, str_eq_sound xs bs)

pub str_eq_refl : (a : List ℕ) → str_eq a a ≡ true
unfolding str_eq
str_eq_refl [] = refl
str_eq_refl (a ∷ xs) = ground (arith, str_eq_refl xs)

str_eq-cstr : (a b : List ℕ) → str_eq (cstr a) b ≡ str_eq a b
unfolding str_eq cstr
str_eq-cstr [] b = refl
str_eq-cstr (a ∷ xs) [] = ground arith
str_eq-cstr (a ∷ xs) (b ∷ bs) = ground (arith, str_eq-cstr xs bs)

-- `kstrcmp` returns zero exactly on strings with the same bytes before the terminator.
pub str_eq_iff : (a b : List ℕ) → (str_eq a b ≡ true) ↔ (cstr a ≡ cstr b)
str_eq_iff a b = (
  str_eq_sound a b,
  λ e. sym (str_eq-cstr a b) ∙ ap (λ s. str_eq s b) e ∙ str_eq-cstr b b ∙ str_eq_refl b,
)
