-- ===== src/Shell/Numbers/Decimal.antt =====
-- The numbers of the shell against the numerals that they stand for.
use fur_os.Prelude.{
  ℕ, zero, suc, ◌+◌, ◌-◌, ◌*◌, ◌/◌, ◌%◌, ◌^◌, ◌≤◌, ◌<◌, ◌≡◌, ◌≢◌, refl, ◌∙◌, ap, false, ◌&&◌,
  Option, none, some, List, [], ◌∷◌, arith, leb, ltb, ◌==◌, if◌then◌else◌, codes, Bool-cases, inl,
  inr, lt→ltb,
}
use native.Mathlib.Nat.{pow-suc}
use fur_os.KString.{byte_at, str_eq}
use fur_os.Shell.Numbers.{
  u32_from, parse_u32, mode_from, parse_mode_octal, parse_uid, put_digits, shell_print_uint,
}

-- The number that a numeral in `base` stands for, behind what was read before; `none` if some
-- character is no digit of the base.
numeral_from : ℕ → ℕ → List ℕ → Option ℕ
numeral_from base value [] = some value
numeral_from base value (c ∷ s) =
    if c == 0
    then some value
    else if leb b'0' c && ltb c (b'0' + base)
    then numeral_from base (value * base + (c - b'0')) s
    else none

pub numeral : ℕ → List ℕ → Option ℕ
numeral base s = if byte_at s 0 == 0 then none else numeral_from base 0 s

-- The low 32 bits of a result.
abbrev pub low32 : Option ℕ → Option ℕ
low32 none = none
low32 (some v) = some (v % 2 ^ 32)

u32_from-mod : (s : List ℕ) (v w : ℕ) → v ≡ w % 2 ^ 32 → u32_from v s ≡ low32 (numeral_from 10 w s)
unfolding u32_from numeral_from
u32_from-mod [] v w e = ap some e
u32_from-mod (c ∷ s) v w e =
    ground (arith, u32_from-mod s ((v * 10 + (c - 48)) % 2 ^ 32) (w * 10 + (c - 48)))

-- `parse_u32` reads a decimal numeral modulo 2^32, and refuses what is none.
pub parse_u32-numeral : (s : List ℕ) → parse_u32 s ≡ low32 (numeral 10 s)
unfolding parse_u32 numeral
parse_u32-numeral s = ground (arith, u32_from-mod s 0 0)

-- A result that fits.
abbrev pub at_most : ℕ → Option ℕ → Option ℕ
at_most bound none = none
at_most bound (some v) = if leb v bound then some v else none

-- A numeral only grows by its digits.
numeral_large : (s : List ℕ) (v : ℕ) → 511 < v → at_most 511 (numeral_from 8 v s) ≡ none
unfolding numeral_from
numeral_large [] v h = ground arith
numeral_large (c ∷ s) v h = ground (arith, numeral_large s (v * 8 + (c - 48)))

mode_from-numeral :
    (s : List ℕ) (v : ℕ) → v ≤ 511 → mode_from v s ≡ at_most 511 (numeral_from 8 v s)
unfolding mode_from numeral_from
mode_from-numeral [] v h = ground arith
mode_from-numeral (c ∷ s) v h =
    ground (arith, mode_from-numeral s (v * 8 + (c - 48)), numeral_large s (v * 8 + (c - 48)))

-- `parse_mode_octal` accepts exactly the octal numerals up to 0777, as their value: of a numeral
-- of any length none wraps around.
parse_mode_octal-numeral : (s : List ℕ) → parse_mode_octal s ≡ at_most 0o777 (numeral 8 s)
unfolding parse_mode_octal numeral
parse_mode_octal-numeral s = ground (arith, mode_from-numeral s 0)

-- `parse_uid` takes a numeral modulo 2^32 before it compares with 65535: a numeral far above the
-- range of a user id is accepted if its low 32 bits are in the range.
pub parse_uid-numeral :
    (s : List ℕ)
    → str_eq s (codes "root") ≡ false
    → str_eq s (codes "debian") ≡ false
    → parse_uid s ≡ at_most 65535 (low32 (numeral 10 s))
unfolding parse_uid
parse_uid-numeral s r d = ground (arith, parse_u32-numeral s)

one_digit :
    (v n : ℕ) (rest : List ℕ) (d : ℕ)
    → d < 10
    → v * 10 + (48 + d - 48) ≡ n
    → numeral_from 10 v ((48 + d) ∷ rest) ≡ numeral_from 10 n rest
unfolding numeral_from
one_digit v n rest d h e = ground arith

numeral-put_digits :
    (room n : ℕ) (rest : List ℕ)
    → n < 10 ^ room
    → numeral_from 10 0 (put_digits room n rest) ≡ numeral_from 10 n rest
unfolding put_digits numeral_from
numeral-put_digits zero n rest h = let e : n ≡ 0 = omega arith in rw e
numeral-put_digits (suc room) n rest h = elim (Bool-cases (ltb 0 n)) [
  | inr z ↦ let e : n ≡ 0 = ground arith in rw e
  | inl y ↦
      let small : n / 10 < 10 ^ room = omega (arith, pow-suc 10 room) in
      let back : n / 10 * 10 + (48 + n % 10 - 48) ≡ n = omega arith in
      let ih : numeral_from 10 0 (put_digits room (n / 10) ((48 + n % 10) ∷ rest))
          ≡ numeral_from 10 (n / 10) ((48 + n % 10) ∷ rest) =
        numeral-put_digits room (n / 10) ((48 + n % 10) ∷ rest) small in
      rw (y, put_digits) (ih ∙ one_digit (n / 10) n rest (n % 10) (omega arith) back)
]

head-put_digits :
    (room n : ℕ) (rest : List ℕ) → byte_at rest 0 ≢ 0 → byte_at (put_digits room n rest) 0 ≢ 0
unfolding put_digits
head-put_digits zero n rest h = h
head-put_digits (suc room) n rest h =
    ground (arith, head-put_digits room (n / 10) ((48 + n % 10) ∷ rest))

head_of_positive : (n : ℕ) → 0 < n → byte_at (put_digits 11 n []) 0 ≢ 0
unfolding put_digits
head_of_positive n h =
    rw (lt→ltb 0 n h, put_digits) (head-put_digits 10 (n / 10) ((48 + n % 10) ∷ []) (omega arith))

-- What `shell_print_uint` prints of a `uint32_t`, `parse_u32` reads back: its buffer of 11 digits
-- is large enough.
pub parse_u32-shell_print_uint : (n : ℕ) → n < 2 ^ 32 → parse_u32 (shell_print_uint n) ≡ some n
unfolding shell_print_uint
parse_u32-shell_print_uint n h = elim (Bool-cases (n == 0)) [
  | inl z ↦ let e : n ≡ 0 = ground arith in rw e (unfold parse_u32 u32_from in refl)
  | inr z ↦
      let r : numeral_from 10 0 (put_digits 11 n []) ≡ some n =
        unfold numeral_from in numeral-put_digits 11 n [] (omega arith) in
      let p : byte_at (put_digits 11 n []) 0 ≢ 0 = head_of_positive n (ground arith) in
      rw z (parse_u32-numeral (put_digits 11 n []) ∙ unfold numeral in ground (arith, r, p))
]
