-- ===== src/Desktop/Kate/Shift.antt =====
-- kernel/desktop.c: the loops that move the bytes behind the cursor, and the buffer of the editor.
use fur_os.Prelude.{
  ℕ, zero, suc, ◌+◌, ◌-◌, ◌≤◌, ◌<◌, ◌≡◌, refl, ap, ◌&&◌, List, arith, length, set, ltb, leb, ◌==◌,
  if◌then◌else◌, get_or-set, length-set,
}
use fur_os.Desktop.Kate.{Kate, byte_of, shift_from, shift_down}

-- The cursor is in the text or at its end, and the buffer holds the terminator behind the text.
pub record IsKate (k : Kate) : Type 0 where
  pub buf : length k.kate_buf ≡ 4096
  pub room : k.kate_len < 4096
  pub cursor : k.kate_pos ≤ k.kate_len

pub length-shift_from : (n pos : ℕ) (buf : List ℕ) → length (shift_from n pos buf) ≡ length buf
unfolding shift_from
length-shift_from zero pos buf = refl
length-shift_from (suc n) pos buf = ground (
  arith,
  length-shift_from n pos (set buf (pos + suc n) (byte_of buf (pos + n))),
  length-set buf (pos + suc n) (byte_of buf (pos + n)),
)

-- The last round of the shift: the byte at `j` and the one before it, before and after.
shift_round :
    (pos n j new old before old' before' v : ℕ)
    → new ≡ (if ltb pos j && leb j (pos + n) then before' else old')
    → old' ≡ (if pos + suc n == j then v else old)
    → before' ≡ (if pos + suc n == j - 1 then v else before)
    → (j ≡ pos + suc n → v ≡ before)
    → new ≡ (if ltb pos j && leb j (pos + suc n) then before else old)
shift_round pos n j new old before old' before' v e o b h = ground (arith, e, o, b, h)

pub byte_of-shift_from :
    (n pos : ℕ) (buf : List ℕ) (j : ℕ)
    → pos + n < length buf
    → byte_of (shift_from n pos buf) j
      ≡ (if ltb pos j && leb j (pos + n) then byte_of buf (j - 1) else byte_of buf j)
unfolding shift_from
byte_of-shift_from zero pos buf j h = ground arith
byte_of-shift_from (suc n) pos buf j h =
    let v : ℕ = byte_of buf (pos + n) in
    let next : List ℕ = set buf (pos + suc n) v in
    let size : length next ≡ length buf = length-set buf (pos + suc n) v in
    shift_round pos n j _ (byte_of buf j) (byte_of buf (j - 1)) (byte_of next j)
      (byte_of next (j - 1)) v (byte_of-shift_from n pos next j (omega arith))
      (get_or-set buf (pos + suc n) j v 0 h) (get_or-set buf (pos + suc n) (j - 1) v 0 h)
      (λ e. let q : pos + n ≡ j - 1 = omega arith in ap (byte_of buf) q)

pub length-shift_down : (n i : ℕ) (buf : List ℕ) → length (shift_down n i buf) ≡ length buf
unfolding shift_down
length-shift_down zero i buf = refl
length-shift_down (suc n) i buf = ground (
  arith,
  length-shift_down n (suc i) (set buf i (byte_of buf (suc i))),
  length-set buf i (byte_of buf (suc i)),
)

pub byte_of-shift_down :
    (n i : ℕ) (buf : List ℕ) (j : ℕ)
    → i + n < length buf
    → byte_of (shift_down n i buf) j
      ≡ (if leb i j && ltb j (i + n) then byte_of buf (suc j) else byte_of buf j)
unfolding shift_down
byte_of-shift_down zero i buf j h = ground arith
byte_of-shift_down (suc n) i buf j h =
    let v : ℕ = byte_of buf (suc i) in
    ground (
      arith,
      byte_of-shift_down n (suc i) (set buf i v) j (omega (arith, length-set buf i v)),
      get_or-set buf i j v 0 (omega arith),
      get_or-set buf i (suc j) v 0 (omega arith),
    )
