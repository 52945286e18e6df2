-- ===== src/Desktop/Kate.antt =====
-- kernel/desktop.c: the buffer of the text editor and what the keys do to it. The `int`s are never
-- negative here.
pub mod Shift
pub mod Text
pub mod Lines
pub mod Save
use fur_os.Prelude.{
  ℕ, zero, suc, ◌+◌, ◌-◌, Bool, true, false, ◌&&◌, ◌||◌, not, List, [], ◌∷◌, length, take, drop,
  set, get_or, ltb, leb, ◌==◌, if◌then◌else◌,
}
use fur_os.Keyboard.{key_up, key_down, key_left, key_right, key_f1}

abbrev pub kate_maxbuf : ℕ
kate_maxbuf = 4096

pub record Kate : Type 0 where
  pub kate_buf : List ℕ
  pub kate_len : ℕ
  pub kate_pos : ℕ
  pub kate_mod : Bool

-- The byte at an index of the buffer.
abbrev pub byte_of : List ℕ → ℕ → ℕ
byte_of buf i = get_or buf i 0

-- The bytes of the text.
abbrev pub text : Kate → List ℕ
text k = take k.kate_len k.kate_buf

-- The loop of `kate_lineof` over the bytes before the position.
unfoldable pub count_lines : ℕ → List ℕ → ℕ
count_lines n [] = n
count_lines n (c ∷ s) = count_lines (if c == 10 then suc n else n) s

unfoldable pub kate_lineof : Kate → ℕ → ℕ
unfolding count_lines
kate_lineof k pos = count_lines 0 (take pos k.kate_buf)

unfoldable pub count_columns : ℕ → List ℕ → ℕ
count_columns n [] = n
count_columns n (c ∷ s) = count_columns (if c == 10 then 0 else suc n) s

unfoldable pub kate_colof : Kate → ℕ → ℕ
unfolding count_columns
kate_colof k pos = count_columns 0 (take pos k.kate_buf)

-- The loop of `kate_lnstart` from index `i` on, over the bytes that are left of the text; `last` is
-- `kate_len`.
unfoldable pub lnstart_from : ℕ → ℕ → ℕ → ℕ → List ℕ → ℕ
lnstart_from ln cur last i [] = last
lnstart_from ln cur last i (c ∷ s) =
    let rest = lnstart_from ln (if c == 10 then suc cur else cur) last (suc i) s in
    if c == 10 && suc cur == ln then suc i else rest

unfoldable pub kate_lnstart : Kate → ℕ → ℕ
unfolding lnstart_from
kate_lnstart k ln = if ln == 0 then 0 else lnstart_from ln 0 k.kate_len 0 (text k)

-- The loop of `kate_lnend` from index `i` on.
unfoldable pub lnend_from : ℕ → ℕ → List ℕ → ℕ
lnend_from last i [] = last
lnend_from last i (c ∷ s) = let rest = lnend_from last (suc i) s in if c == 10 then i else rest

unfoldable pub kate_lnend : Kate → ℕ → ℕ
unfolding kate_lnstart lnend_from
kate_lnend k ln = let s = kate_lnstart k ln in lnend_from k.kate_len s (drop s (text k))

-- The loop of `kate_shiftright` with `rounds` indices left, from `pos + rounds` down.
unfoldable pub shift_from : ℕ → ℕ → List ℕ → List ℕ
shift_from zero pos buf = buf
shift_from (suc rounds) pos buf =
    shift_from rounds pos (set buf (pos + suc rounds) (byte_of buf (pos + rounds)))

unfoldable pub kate_shiftright : Kate → ℕ → List ℕ
unfolding shift_from
kate_shiftright k pos = shift_from (k.kate_len - pos) pos k.kate_buf

unfoldable pub kate_insert : Kate → ℕ → Kate
unfolding kate_shiftright
kate_insert k c = if leb (kate_maxbuf - 1) k.kate_len then k else record {
  kate_buf = set (kate_shiftright k k.kate_pos) k.kate_pos c;
  kate_len = suc k.kate_len;
  kate_pos = suc k.kate_pos;
  kate_mod = true;
}

-- `kmemcpy(&buf[i], &buf[i + 1], rounds)`: byte by byte from the first on, within one array.
unfoldable pub shift_down : ℕ → ℕ → List ℕ → List ℕ
shift_down zero i buf = buf
shift_down (suc rounds) i buf = shift_down rounds (suc i) (set buf i (byte_of buf (suc i)))

unfoldable pub kate_backspace : Kate → Kate
unfolding shift_down
kate_backspace k = if k.kate_pos == 0 then k else record {
  kate_buf = shift_down (k.kate_len - (k.kate_pos - 1)) (k.kate_pos - 1) k.kate_buf;
  kate_len = k.kate_len - 1;
  kate_pos = k.kate_pos - 1;
  kate_mod = true;
}

unfoldable pub kate_delkey : Kate → Kate
unfolding shift_down
kate_delkey k = if leb k.kate_len k.kate_pos then k else record {
  kate_buf = shift_down (k.kate_len - k.kate_pos - 1) k.kate_pos k.kate_buf;
  kate_len = k.kate_len - 1;
  kate_pos = k.kate_pos;
  kate_mod = true;
}

abbrev smaller : ℕ → ℕ → ℕ
smaller a b = if ltb a b then a else b

unfoldable pub kate_move_up : Kate → Kate
unfolding kate_lineof kate_colof kate_lnstart kate_lnend
kate_move_up k =
    let ln = kate_lineof k k.kate_pos in
    let col = kate_colof k k.kate_pos in
    let ps = kate_lnstart k (ln - 1) in
    let ep = kate_lnend k (ln - 1) in
    if ln == 0 then k else record k { kate_pos = ps + smaller col (ep - ps) }

-- `nlen < 0` is where the subtraction stops at 0.
unfoldable pub kate_move_down : Kate → Kate
unfolding kate_lineof kate_colof kate_lnstart kate_lnend
kate_move_down k =
    let ln = kate_lineof k k.kate_pos in
    let col = kate_colof k k.kate_pos in
    let ns = kate_lnstart k (ln + 1) in
    let ne = kate_lnend k (ln + 1) in
    if leb k.kate_len ns && (k.kate_len == 0 || not (byte_of k.kate_buf (k.kate_len - 1) == 10))
    then k
    else record k { kate_pos = ns + smaller col (ne - ns) }

unfoldable pub kate_home : Kate → Kate
unfolding kate_lineof kate_lnstart
kate_home k = record k { kate_pos = kate_lnstart k (kate_lineof k k.kate_pos) }

unfoldable pub kate_end : Kate → Kate
unfolding kate_lineof kate_lnend
kate_end k = record k { kate_pos = kate_lnend k (kate_lineof k k.kate_pos) }

-- The loop of `run_kate` for a key other than ESC and F2: F1 to F5 are five codes in a row.
unfoldable pub kate_key : Kate → ℕ → Kate
unfolding kate_insert kate_backspace kate_delkey kate_move_up kate_move_down kate_home kate_end
kate_key k key =
    if key == key_up
    then kate_move_up k
    else if key == key_down
    then kate_move_down k
    else if key == key_left
    then (if ltb 0 k.kate_pos then record k { kate_pos = k.kate_pos - 1 } else k)
    else if key == key_right
    then (if ltb k.kate_pos k.kate_len then record k { kate_pos = suc k.kate_pos } else k)
    else if key == key_f1
    then kate_home k
    else if key == key_f1 + 2
    then kate_end k
    else if key == 8 || key == 127
    then kate_backspace k
    else if key == 127 || key == key_f1 + 3
    then kate_delkey k
    else if key == 10 || key == 13
    then kate_insert k 10
    else if leb 32 key && ltb key 127
    then kate_insert k key
    else k
