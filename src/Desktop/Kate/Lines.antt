-- ===== src/Desktop/Kate/Lines.antt =====
-- kernel/desktop.c: the lines of the editor's text, and that the cursor stays in the text.
use fur_os.Prelude.{
  ℕ, zero, suc, ◌+◌, ◌-◌, ◌≤◌, ◌<◌, ◌≡◌, refl, ◌∙◌, ap, ◌&&◌, ◌||◌, not, List, [], ◌∷◌, ◌++◌, arith,
  length, take, drop, ltb, leb, ◌==◌, if◌then◌else◌, branch, Bool-cases, inl, inr, length-take,
  length-drop,
}
use fur_os.Keyboard.{key_up, key_down, key_left, key_right, key_f1}
use fur_os.Desktop.Kate.{
  Kate, text, byte_of, count_lines, count_columns, kate_lineof, kate_colof, lnstart_from,
  kate_lnstart, lnend_from, kate_lnend, kate_move_up, kate_move_down, kate_home, kate_end, kate_key,
}
use fur_os.Desktop.Kate.Shift.{IsKate}
use fur_os.Desktop.Kate.Text.{kate_insert-IsKate, kate_backspace-IsKate, kate_delkey-IsKate}

lnstart_from-le :
    (ln cur last i : ℕ) (s : List ℕ) → i + length s ≤ last → lnstart_from ln cur last i s ≤ last
unfolding lnstart_from
lnstart_from-le ln cur last i [] h = omega arith
lnstart_from-le ln cur last i (c ∷ s) h =
    ground
      (arith, h, lnstart_from-le ln (if c == 10 then suc cur else cur) last (suc i) s (omega arith))

lnend_from-le :
    (last i : ℕ) (s : List ℕ)
    → i + length s ≤ last
    → (i ≤ lnend_from last i s) × (lnend_from last i s ≤ last)
unfolding lnend_from
lnend_from-le last i [] h = (omega arith, omega arith)
lnend_from-le last i (c ∷ s) h =
    let (a, b) = lnend_from-le last (suc i) s (omega arith) in
    (ground (arith, a, h), ground (arith, b, h))

count_lines-le : (n : ℕ) (s : List ℕ) → n ≤ count_lines n s
unfolding count_lines
count_lines-le n [] = omega arith
count_lines-le n (c ∷ s) = ground (arith, count_lines-le n s, count_lines-le (suc n) s)

-- Without an end of line in it, a text has as many columns as bytes.
columns_of_line : (n m : ℕ) (s : List ℕ) → count_lines n s ≡ n → count_columns m s ≡ m + length s
unfolding count_lines count_columns
columns_of_line n m [] h = omega arith
columns_of_line n m (c ∷ s) h = elim (Bool-cases (c == 10)) [
  | inl y ↦
      let q : count_lines (suc n) s ≡ n = ground (arith, h, y) in
      absurd (omega (arith, q, count_lines-le (suc n) s))
  | inr f ↦
      let q : count_lines n s ≡ n = ground (arith, h, f) in
      rw f (columns_of_line n (suc m) s q ∙ omega arith)
]

-- The line that the bytes of `a` end in starts as many bytes before their end as they have columns.
lnstart_from-columns :
    (a b : List ℕ) (ln cur last i m : ℕ)
    → count_lines cur a ≡ ln
    → cur < ln
    → lnstart_from ln cur last i (a ++ b) + count_columns m a ≡ i + length a
unfolding lnstart_from count_lines count_columns
lnstart_from-columns [] b ln cur last i m l h = absurd (omega arith)
lnstart_from-columns (c ∷ a) b ln cur last i m l h = elim (Bool-cases (c == 10)) [
  | inr f ↦
      let q : count_lines cur a ≡ ln = ground (arith, l, f) in
      rw f (lnstart_from-columns a b ln cur last (suc i) (suc m) q h ∙ omega arith)
  | inl y ↦
      let q : count_lines (suc cur) a ≡ ln = ground (arith, l, y) in
      elim (Bool-cases (suc cur == ln)) [
        | inl e ↦
            let r : count_lines (suc cur) a ≡ suc cur = ground (arith, q, e) in
            rw (y, e) (omega (arith, columns_of_line (suc cur) 0 a r))
        | inr n ↦
            rw (y, n)
              (lnstart_from-columns a b ln (suc cur) last (suc i) 0 q (ground (arith, n))
                ∙ omega arith)
      ]
]

take_split : (n m : ℕ) (xs : List ℕ) → n ≤ m → take m xs ≡ take n xs ++ drop n (take m xs)
take_split zero m xs h = refl
take_split (suc n) zero xs h = absurd (omega arith)
take_split (suc n) (suc m) [] h = refl
take_split (suc n) (suc m) (x ∷ xs) h = ap (λ r. x ∷ r) (take_split n m xs (omega arith))

module _ (k : Kate) (v : IsKate k) where
  length-text : length (text k) ≡ k.kate_len
  length-text = omega (arith, v.buf, v.room, length-take k.kate_len k.kate_buf)

  kate_lnstart-le : (ln : ℕ) → kate_lnstart k ln ≤ k.kate_len
  unfolding kate_lnstart
  kate_lnstart-le ln =
      ground (arith, lnstart_from-le ln 0 k.kate_len 0 (text k) (omega (arith, length-text)))

  kate_lnend-le : (ln : ℕ) → (kate_lnstart k ln ≤ kate_lnend k ln) × (kate_lnend k ln ≤ k.kate_len)
  unfolding kate_lnend
  kate_lnend-le ln =
      let s : ℕ = kate_lnstart k ln in
      lnend_from-le k.kate_len s (drop s (text k))
        (omega (arith, length-text, length-drop s (text k), kate_lnstart-le ln))

  moved-IsKate : (pos : ℕ) → pos ≤ k.kate_len → IsKate (record k { kate_pos = pos })
  moved-IsKate pos h = record { buf = v.buf; room = v.room; cursor = h }

  kate_move_up-IsKate : IsKate (kate_move_up k)
  unfolding kate_move_up
  kate_move_up-IsKate =
      let ln : ℕ = kate_lineof k k.kate_pos in
      branch IsKate (ln == 0) (λ y. v)
        (λ n. moved-IsKate _ (ground (arith, kate_lnend-le (ln - 1))))

  kate_move_down-IsKate : IsKate (kate_move_down k)
  unfolding kate_move_down
  kate_move_down-IsKate =
      let ln : ℕ = kate_lineof k k.kate_pos in
      branch IsKate
        (leb k.kate_len (kate_lnstart k (ln + 1))
          && (k.kate_len == 0 || not (byte_of k.kate_buf (k.kate_len - 1) == 10)))
        (λ y. v) (λ n. moved-IsKate _ (ground (arith, kate_lnend-le (ln + 1))))

  kate_home-IsKate : IsKate (kate_home k)
  unfolding kate_home
  kate_home-IsKate = moved-IsKate _ (kate_lnstart-le (kate_lineof k k.kate_pos))

  kate_end-IsKate : IsKate (kate_end k)
  unfolding kate_end
  kate_end-IsKate = moved-IsKate _ (kate_lnend-le (kate_lineof k k.kate_pos)).1

  -- With the cursor in the text and room for the terminator, that stays so, whatever the key.
  pub kate_key-IsKate : (key : ℕ) → IsKate (kate_key k key)
  unfolding kate_key
  kate_key-IsKate key =
      branch IsKate (key == key_up) (λ y. kate_move_up-IsKate)
        (λ n.
          branch IsKate (key == key_down) (λ y. kate_move_down-IsKate)
            (λ n.
              branch IsKate (key == key_left)
                (λ y.
                  branch IsKate (ltb 0 k.kate_pos) (λ z. moved-IsKate _ (omega (arith, v.cursor)))
                    (λ z. v))
                (λ n.
                  branch IsKate (key == key_right)
                    (λ y.
                      branch IsKate (ltb k.kate_pos k.kate_len)
                        (λ z. moved-IsKate _ (ground (arith, z))) (λ z. v))
                    (λ n.
                      branch IsKate (key == key_f1) (λ y. kate_home-IsKate)
                        (λ n.
                          branch IsKate (key == key_f1 + 2) (λ y. kate_end-IsKate)
                            (λ n.
                              branch IsKate (key == 8 || key == 127)
                                (λ y. kate_backspace-IsKate k v)
                                (λ n.
                                  branch IsKate (key == 127 || key == key_f1 + 3)
                                    (λ y. kate_delkey-IsKate k v)
                                    (λ n.
                                      branch IsKate (key == 10 || key == 13)
                                        (λ y. kate_insert-IsKate k v 10)
                                        (λ n.
                                          branch IsKate (leb 32 key && ltb key 127)
                                            (λ y. kate_insert-IsKate k v key) (λ n. v))))))))))

  -- With the cursor in the text, Home goes back by exactly the column that `kate_colof` counts.
  pub kate_home-kate_colof : (kate_home k).kate_pos + kate_colof k k.kate_pos ≡ k.kate_pos
  unfolding kate_home kate_lnstart kate_lineof kate_colof
  kate_home-kate_colof =
      let a : List ℕ = take k.kate_pos k.kate_buf in
      let size : length a ≡ k.kate_pos =
        omega (arith, v.buf, v.room, v.cursor, length-take k.kate_pos k.kate_buf) in
      elim (Bool-cases (count_lines 0 a == 0)) [
        | inl z ↦
            let q : count_lines 0 a ≡ 0 = ground (arith, z) in
            rw z (omega (arith, size, columns_of_line 0 0 a q))
        | inr n ↦
            let q : text k ≡ a ++ drop k.kate_pos (text k) =
              take_split k.kate_pos k.kate_len k.kate_buf v.cursor in
            let e =
              lnstart_from-columns a (drop k.kate_pos (text k)) (count_lines 0 a) 0 k.kate_len 0 0
                refl (ground (arith, n)) in
            let f : lnstart_from (count_lines 0 a) 0 k.kate_len 0 (text k) + count_columns 0 a
                ≡ 0 + length a =
              ap (λ s. lnstart_from (count_lines 0 a) 0 k.kate_len 0 s + count_columns 0 a) q ∙ e in
            rw n (f ∙ omega (arith, size))
      ]
