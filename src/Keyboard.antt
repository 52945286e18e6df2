-- ===== src/Keyboard.antt =====
-- kernel/keyboard.c: from scancodes to keys.
--
-- The controller is the list of the scancodes that port 0x60 will deliver: polling port 0x64 only
-- waits for the next. Where the list ends, the loops of the source wait for ever.
pub mod Keys
use Prim.Native.Nat.{bit_and}
use mathlib.Core.Bool.{xor}
use fur_os.Prelude.{
  ℕ, ◌+◌, ◌-◌, ◌%◌, Bool, true, false, ◌&&◌, ◌||◌, not, Option, none, some, List, [], ◌∷◌, get_or,
  leb, ◌==◌, if◌then◌else◌,
}

-- scancode_set1_map
abbrev pub scancode_set1_map : List ℕ
scancode_set1_map =
    0 ∷ 27 ∷ 49 ∷ 50 ∷ 51 ∷ 52 ∷ 53 ∷ 54 ∷ 55 ∷ 56 ∷ 57 ∷ 48 ∷ 45 ∷ 61 ∷ 8 ∷ 9 ∷ 113 ∷ 119 ∷ 101
    ∷ 114 ∷ 116 ∷ 121 ∷ 117 ∷ 105 ∷ 111 ∷ 112 ∷ 91 ∷ 93 ∷ 10 ∷ 0 ∷ 97 ∷ 115 ∷ 100 ∷ 102 ∷ 103 ∷ 104
    ∷ 106 ∷ 107 ∷ 108 ∷ 59 ∷ 39 ∷ 96 ∷ 0 ∷ 92 ∷ 122 ∷ 120 ∷ 99 ∷ 118 ∷ 98 ∷ 110 ∷ 109 ∷ 44 ∷ 46 ∷ 47
    ∷ 0 ∷ 42 ∷ 0 ∷ 32 ∷ 0 ∷ 0 ∷ 0 ∷ 0 ∷ 0 ∷ 0 ∷ 0 ∷ 0 ∷ 0 ∷ 0 ∷ 0 ∷ 0 ∷ 0 ∷ 0 ∷ 0 ∷ 0 ∷ 0 ∷ 0 ∷ 0
    ∷ 0 ∷ 0 ∷ 0 ∷ 0 ∷ 0 ∷ 0 ∷ 45 ∷ 0 ∷ 0 ∷ 0 ∷ 43 ∷ 0 ∷ 0 ∷ 0 ∷ 0 ∷ 0 ∷ 0 ∷ 0 ∷ 0 ∷ 0 ∷ 0 ∷ 0 ∷ 0
    ∷ 0 ∷ 0 ∷ 0 ∷ 0 ∷ 0 ∷ 0 ∷ 0 ∷ 0 ∷ 0 ∷ 0 ∷ 0 ∷ 0 ∷ 0 ∷ 0 ∷ 0 ∷ 0 ∷ 0 ∷ 0 ∷ 0 ∷ 0 ∷ 0 ∷ 0 ∷ 0 ∷ 0
    ∷ 0 ∷ 0 ∷ 0 ∷ 0 ∷ []

-- scancode_set1_shift_map
abbrev pub scancode_set1_shift_map : List ℕ
scancode_set1_shift_map =
    0 ∷ 27 ∷ 33 ∷ 64 ∷ 35 ∷ 36 ∷ 37 ∷ 94 ∷ 38 ∷ 42 ∷ 40 ∷ 41 ∷ 95 ∷ 43 ∷ 8 ∷ 9 ∷ 81 ∷ 87 ∷ 69 ∷ 82
    ∷ 84 ∷ 89 ∷ 85 ∷ 73 ∷ 79 ∷ 80 ∷ 123 ∷ 125 ∷ 10 ∷ 0 ∷ 65 ∷ 83 ∷ 68 ∷ 70 ∷ 71 ∷ 72 ∷ 74 ∷ 75 ∷ 76
    ∷ 58 ∷ 34 ∷ 126 ∷ 0 ∷ 124 ∷ 90 ∷ 88 ∷ 67 ∷ 86 ∷ 66 ∷ 78 ∷ 77 ∷ 60 ∷ 62 ∷ 63 ∷ 0 ∷ 42 ∷ 0 ∷ 32
    ∷ 0 ∷ 0 ∷ 0 ∷ 0 ∷ 0 ∷ 0 ∷ 0 ∷ 0 ∷ 0 ∷ 0 ∷ 0 ∷ 0 ∷ 0 ∷ 0 ∷ 0 ∷ 0 ∷ 0 ∷ 0 ∷ 0 ∷ 0 ∷ 0 ∷ 0 ∷ 0 ∷ 0
    ∷ 0 ∷ 45 ∷ 0 ∷ 0 ∷ 0 ∷ 43 ∷ 0 ∷ 0 ∷ 0 ∷ 0 ∷ 0 ∷ 0 ∷ 0 ∷ 0 ∷ 0 ∷ 0 ∷ 0 ∷ 0 ∷ 0 ∷ 0 ∷ 0 ∷ 0 ∷ 0
    ∷ 0 ∷ 0 ∷ 0 ∷ 0 ∷ 0 ∷ 0 ∷ 0 ∷ 0 ∷ 0 ∷ 0 ∷ 0 ∷ 0 ∷ 0 ∷ 0 ∷ 0 ∷ 0 ∷ 0 ∷ 0 ∷ 0 ∷ 0 ∷ 0 ∷ 0 ∷ 0 ∷ []

-- `shift_pressed`, `ctrl_pressed`, `caps_lock` and `g_ext`.
pub record Keyboard : Type 0 where
  pub shift_pressed : Bool
  pub ctrl_pressed : Bool
  pub caps_lock : Bool
  pub ext : Bool

unfoldable pub keyboard_init : Keyboard
keyboard_init = record {
  shift_pressed = false;
  ctrl_pressed = false;
  caps_lock = false;
  ext = false;
}

is_alpha : ℕ → Bool
is_alpha c = leb b'a' c && leb c b'z' || leb b'A' c && leb c b'Z'

to_upper : ℕ → ℕ
to_upper c = if leb b'a' c && leb c b'z' then c - 32 else c

to_lower : ℕ → ℕ
to_lower c = if leb b'A' c && leb c b'Z' then c + 32 else c

abbrev pub key_up : ℕ
key_up = 0x100

abbrev pub key_down : ℕ
key_down = 0x101

abbrev pub key_left : ℕ
key_left = 0x102

abbrev pub key_right : ℕ
key_right = 0x103

abbrev pub key_f1 : ℕ
key_f1 = 0x201

-- The two switches; the function keys have the codes from `key_f1` on.
extended_key : ℕ → Option ℕ
extended_key scancode =
    if scancode == 0x48
    then some key_up
    else if scancode == 0x50
    then some key_down
    else if scancode == 0x4B
    then some key_left
    else if scancode == 0x4D
    then some key_right
    else none

function_key : ℕ → Option ℕ
function_key scancode =
    if leb 0x3B scancode && leb scancode 0x3F then some (key_f1 + (scancode - 0x3B)) else none

-- The character of a scancode that is no modifier and no function key; 0 is none.
unfoldable pub char_of : Keyboard → ℕ → ℕ
unfolding is_alpha to_upper to_lower
char_of k scancode =
    let c = get_or scancode_set1_map scancode 0 in
    let shifted = get_or scancode_set1_shift_map scancode 0 in
    if c == 0
    then 0
    else (let d =
          if is_alpha c
          then (if xor k.shift_pressed k.caps_lock then to_upper c else to_lower c)
          else (if k.shift_pressed && not (shifted == 0) then shifted else c) in
        if k.ctrl_pressed && is_alpha d then to_lower d - b'a' + 1 else d)

-- The body of the loop of `keyboard_get_key`, after the read of the scancode.
unfoldable pub on_scancode : Keyboard → ℕ → Keyboard × Option ℕ
unfolding extended_key function_key
on_scancode k scancode =
    let released = scancode % 128 in
    if scancode == 0xE0
    then (record k { ext = true }, none)
    else if leb 128 scancode
    then (
      if released == 0x2A || released == 0x36
          then record k { shift_pressed = false; ext = false }
          else if released == 0x1D
          then record k { ctrl_pressed = false; ext = false }
          else record k { ext = false },
      none,
    )
    else if k.ext
    then (record k { ext = false }, extended_key scancode)
    else if scancode == 0x2A || scancode == 0x36
    then (record k { shift_pressed = true }, none)
    else if scancode == 0x1D
    then (record k { ctrl_pressed = true }, none)
    else if scancode == 0x3A
    then (record k { caps_lock = not k.caps_lock }, none)
    else (
      k,
      elim (function_key scancode) [
        | some f ↦ some f
        | none ↦ if char_of k scancode == 0 then none else some (char_of k scancode)
      ],
    )

-- The key, the keyboard and the scancodes that are left; `none` while it still waits.
unfoldable pub keyboard_get_key : Keyboard → List ℕ → Option (ℕ × Keyboard × List ℕ)
keyboard_get_key k [] = none
keyboard_get_key k (scancode ∷ rest) = elim ((on_scancode k scancode).1) [
  | some key ↦ some (key, (on_scancode k scancode).0, rest)
  | none ↦ keyboard_get_key (on_scancode k scancode).0 rest
]

-- The loop of `keyboard_getchar`: what `keyboard_get_key` returns past 127 is skipped. It is the
-- loop of both functions at once, since the inner one goes on with the scancodes that are left.
unfoldable pub keyboard_getchar : Keyboard → List ℕ → Option (ℕ × Keyboard × List ℕ)
keyboard_getchar k [] = none
keyboard_getchar k (scancode ∷ rest) = elim ((on_scancode k scancode).1) [
  | some key ↦ elim (leb key 127) [
    | true ↦ some (key, (on_scancode k scancode).0, rest)
    | false ↦ keyboard_getchar (on_scancode k scancode).0 rest
  ]
  | none ↦ keyboard_getchar (on_scancode k scancode).0 rest
]
