-- ===== src/Shell/Numbers.antt =====
-- kernel/shell.c: characters, numbers and user names.
pub mod Decimal
use fur_os.Prelude.{
  ℕ, zero, suc, ◌+◌, ◌-◌, ◌*◌, ◌/◌, ◌%◌, ◌^◌, Bool, true, false, ◌&&◌, ◌||◌, not, Option, none,
  some, List, [], ◌∷◌, leb, ltb, ◌==◌, if◌then◌else◌, codes, ◌>>=◌,
}
use fur_os.KString.{byte_at, str_eq}

abbrev pub shell_uid_root : ℕ
shell_uid_root = 0

abbrev pub shell_uid_debian : ℕ
shell_uid_debian = 1000

abbrev pub is_space : ℕ → Bool
is_space c = c == 32 || c == 9

abbrev pub is_printable : ℕ → Bool
is_printable c = leb 32 c && leb c 126

abbrev pub is_digit : ℕ → Bool
is_digit c = leb b'0' c && leb c b'9'

abbrev pub is_octal_digit : ℕ → Bool
is_octal_digit c = leb b'0' c && leb c b'7'

unfoldable pub uid_to_name : ℕ → List ℕ
uid_to_name uid =
    if uid == shell_uid_root
    then codes "root"
    else if uid == shell_uid_debian
    then codes "debian"
    else codes "user"

-- The loop of `parse_u32`; `uint32_t` arithmetic wraps.
unfoldable pub u32_from : ℕ → List ℕ → Option ℕ
u32_from value [] = some value
u32_from value (c ∷ s) =
    let rest = u32_from ((value * 10 + (c - b'0')) % 2 ^ 32) s in
    if c == 0 then some value else if is_digit c then rest else none

unfoldable pub parse_u32 : List ℕ → Option ℕ
parse_u32 s = if byte_at s 0 == 0 then none else u32_from 0 s

-- The loop of `parse_mode_octal`.
unfoldable pub mode_from : ℕ → List ℕ → Option ℕ
mode_from value [] = some value
mode_from value (c ∷ s) =
    let next = (value * 8 % 2 ^ 32 + (c - b'0')) % 2 ^ 32 in
    let rest = mode_from next s in
    if c == 0
    then some value
    else if is_octal_digit c
    then (if ltb 0o777 next then none else rest)
    else none

unfoldable pub parse_mode_octal : List ℕ → Option ℕ
parse_mode_octal s = if byte_at s 0 == 0 then none else mode_from 0 s

unfoldable pub parse_uid : List ℕ → Option ℕ
parse_uid name =
    if str_eq name (codes "root")
    then some shell_uid_root
    else if str_eq name (codes "debian")
    then some shell_uid_debian
    else parse_u32 name >>= λ numeric. if ltb 65535 numeric then none else some numeric

-- The loop of `shell_print_uint` fills `buf` from the last digit; what it prints is read backwards,
-- so each digit goes in front. The buffer has room for 11.
unfoldable pub put_digits : ℕ → ℕ → List ℕ → List ℕ
put_digits zero value printed = printed
put_digits (suc room) value printed = elim (ltb 0 value) [
  | false ↦ printed
  | true ↦ put_digits room (value / 10) ((b'0' + value % 10) ∷ printed)
]

-- What `shell_print_uint` prints.
unfoldable pub shell_print_uint : ℕ → List ℕ
shell_print_uint value = if value == 0 then b'0' ∷ [] else put_digits 11 value []
