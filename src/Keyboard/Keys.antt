-- ===== src/Keyboard/Keys.antt =====
-- Which keys `keyboard_get_key` and `keyboard_getchar` return.
use mathlib.Core.Bool.{xor}
use fur_os.Prelude.{
  ℕ, ◌+◌, ◌-◌, get_or, ◌≤◌, ◌<◌, ◌≡◌, refl, ◌⊎◌, inl, inr, Bool, true, false, ◌&&◌, none, some,
  List, [], ◌∷◌, arith, leb, ◌==◌, if◌then◌else◌, Option-cases,
}
use fur_os.Prelude.Table.{passes_below, passes_below_sound, all_flags, all_flags_sound}
use fur_os.Keyboard.{
  Keyboard, on_scancode, char_of, extended_key, function_key, keyboard_get_key, keyboard_getchar,
  key_up, key_f1, scancode_set1_map,
}

-- What a keyboard of the given flags makes of a plain scancode.
abbrev flags : Bool → Bool → Bool → Keyboard
flags shift ctrl caps = record {
  shift_pressed = shift;
  ctrl_pressed = ctrl;
  caps_lock = caps;
  ext = false;
}

small : ℕ → Bool → Bool → Bool → Bool
small scancode shift ctrl caps = leb (char_of (flags shift ctrl caps) scancode) 127

small_table :
    passes_below 128 (λ s. all_flags (λ b. all_flags (λ c. all_flags (λ l. small s b c l)))) ≡ true
unfolding small char_of passes_below xor
small_table = refl

char_of-flags :
    (k : Keyboard) (scancode : ℕ)
    → char_of k scancode ≡ char_of (flags k.shift_pressed k.ctrl_pressed k.caps_lock) scancode
unfolding char_of
char_of-flags k scancode = refl

char_of-le : (k : Keyboard) (scancode : ℕ) → scancode < 128 → char_of k scancode ≤ 127
char_of-le k s h =
    let a =
      passes_below_sound 128 (λ s. all_flags (λ b. all_flags (λ c. all_flags (λ l. small s b c l))))
        s h small_table in
    let b =
      all_flags_sound (λ b. all_flags (λ c. all_flags (λ l. small s b c l))) k.shift_pressed a in
    let c = all_flags_sound (λ c. all_flags (λ l. small s k.shift_pressed c l)) k.ctrl_pressed b in
    let d : small s k.shift_pressed k.ctrl_pressed k.caps_lock ≡ true =
      all_flags_sound (λ l. small s k.shift_pressed k.ctrl_pressed l) k.caps_lock c in
    unfold small in rw (char_of-flags k s) (ground arith)

-- A key is a character that is not 0, or one of the codes of keyboard.h.
abbrev pub IsKey : ℕ → Type 0
IsKey key =
    ((1 ≤ key) × (key ≤ 127))
    ⊎ ((key_up ≤ key) × (key ≤ key_up + 3))
    ⊎ ((key_f1 ≤ key) × (key ≤ key_f1 + 4))

on_scancode-IsKey :
    (k : Keyboard) (scancode key : ℕ) → (on_scancode k scancode).1 ≡ some key → IsKey key
unfolding on_scancode extended_key function_key
on_scancode-IsKey k scancode key h = ground (arith, char_of-le k scancode)

-- Every key that `keyboard_get_key` returns, whatever was typed, is a character from 1 to 127 or one
-- of the codes of the arrow and function keys.
pub keyboard_get_key-IsKey :
    (k : Keyboard) (input : List ℕ) (key : ℕ) (k' : Keyboard) (rest : List ℕ)
    → keyboard_get_key k input ≡ some (key, k', rest)
    → IsKey key
unfolding keyboard_get_key
keyboard_get_key-IsKey k [] key k' rest h = absurd (cc h)
keyboard_get_key-IsKey k (s ∷ input) key k' rest h = elim (Option-cases ((on_scancode k s).1)) [
  | inl e ↦ keyboard_get_key-IsKey (on_scancode k s).0 input key k' rest (ground (arith, e))
  | inr (c, e) ↦ on_scancode-IsKey k s key (ground (arith, e))
]

-- `keyboard_getchar` returns the first key of `keyboard_get_key` that is a character: what one call
-- gives is what the other gives after the special keys that it skips.
keyboard_getchar_lem :
    (k : Keyboard) (input : List ℕ)
    → keyboard_getchar k input ≡ elim (keyboard_get_key k input) [
      | none ↦ none
      | some (key, k', rest) ↦
          if leb key 127 then some (key, k', rest) else keyboard_getchar k' rest
    ]
unfolding keyboard_get_key keyboard_getchar
keyboard_getchar_lem k [] = refl
keyboard_getchar_lem k (s ∷ input) = elim (Option-cases ((on_scancode k s).1)) [
  | inl e ↦ ground (arith, e, keyboard_getchar_lem (on_scancode k s).0 input)
  | inr (c, e) ↦ ground (arith, e)
]

-- The letters of the map, by the three flags.
letter : ℕ → Bool → Bool → Bool → Bool
letter s shift ctrl caps =
    let c = get_or scancode_set1_map s 0 in
    if leb b'a' c && leb c b'z'
    then char_of (flags shift ctrl caps) s
      == (if ctrl then c - b'a' + 1 else if xor shift caps then c - 32 else c)
    else true

letter_table :
    passes_below 128 (λ s. all_flags (λ b. all_flags (λ c. all_flags (λ l. letter s b c l)))) ≡ true
unfolding letter char_of passes_below xor
letter_table = refl

-- A letter key gives its control code while Ctrl is held; else the capital letter if exactly one of
-- Shift and Caps Lock is on, and the small letter if both or none are.
char_of_letter :
    (k : Keyboard) (s : ℕ)
    → s < 128
    → b'a' ≤ get_or scancode_set1_map s 0
    → get_or scancode_set1_map s 0 ≤ b'z'
    → char_of k s ≡ (
        if k.ctrl_pressed
        then get_or scancode_set1_map s 0 - b'a' + 1
        else if xor k.shift_pressed k.caps_lock
        then get_or scancode_set1_map s 0 - 32
        else get_or scancode_set1_map s 0)
char_of_letter k s h lo hi =
    let a =
      passes_below_sound 128
        (λ s. all_flags (λ b. all_flags (λ c. all_flags (λ l. letter s b c l)))) s h letter_table in
    let b =
      all_flags_sound (λ b. all_flags (λ c. all_flags (λ l. letter s b c l))) k.shift_pressed a in
    let c = all_flags_sound (λ c. all_flags (λ l. letter s k.shift_pressed c l)) k.ctrl_pressed b in
    let d : letter s k.shift_pressed k.ctrl_pressed k.caps_lock ≡ true =
      all_flags_sound (λ l. letter s k.shift_pressed k.ctrl_pressed l) k.caps_lock c in
    letter_of (get_or scancode_set1_map s 0) (char_of k s) k.shift_pressed k.ctrl_pressed
      k.caps_lock lo hi (unfold letter char_of in d)
  where
    letter_of :
        (c r : ℕ) (shift ctrl caps : Bool)
        → b'a' ≤ c
        → c ≤ b'z'
        → (if leb b'a' c && leb c b'z'
            then r == (if ctrl then c - b'a' + 1 else if xor shift caps then c - 32 else c)
            else true)
          ≡ true
        → r ≡ (if ctrl then c - b'a' + 1 else if xor shift caps then c - 32 else c)
    letter_of c r shift ctrl caps lo hi h = ground arith
