-- ===== src/Desktop/Kate/Text.antt =====
-- kernel/desktop.c: the keys of the editor as changes of a text with a cursor in it.
use fur_os.Prelude.{
  ℕ, suc, ◌+◌, ◌-◌, ◌<◌, ◌≡◌, refl, ap, true, List, [], ◌∷◌, ◌++◌, arith, length, take, drop, set,
  ltb, leb, ◌==◌, if◌then◌else◌, list_ext, get_or-set, get_or-take, sym, ◌∙◌, Bool-cases, inl, inr,
  get_or_past, get_or-drop, get_or-append, length-set, length-take, length-drop, length-append,
  branch,
}
use fur_os.Desktop.Kate.{
  Kate, text, byte_of, shift_from, shift_down, kate_shiftright, kate_insert, kate_backspace,
  kate_delkey,
}
use fur_os.Desktop.Kate.Shift.{
  IsKate, length-shift_from, byte_of-shift_from, length-shift_down, byte_of-shift_down,
}

-- The text before the cursor and the text after it.
pub record Doc : Type 0 where
  pub before : List ℕ
  pub after : List ℕ

abbrev pub doc : Kate → Doc
doc k = record { before = take k.kate_pos (text k); after = drop k.kate_pos (text k) }

-- A character before the cursor, up to 4095 of them.
abbrev pub put_char : ℕ → Doc → Doc
put_char c d =
    if leb 4095 (length d.before + length d.after)
    then d
    else record d { before = d.before ++ c ∷ [] }

abbrev pub erase_before : Doc → Doc
erase_before d = record d { before = take (length d.before - 1) d.before }

abbrev pub erase_after : Doc → Doc
erase_after d = record d { after = drop 1 d.after }

module _ (k : Kate) (v : IsKate k) where
  length-before : length (doc k).before ≡ k.kate_pos
  length-before = omega (
    arith,
    v.buf,
    v.room,
    v.cursor,
    length-take k.kate_pos (text k),
    length-take k.kate_len k.kate_buf,
  )

  length-after : length (doc k).after ≡ k.kate_len - k.kate_pos
  length-after = omega (
    arith,
    v.buf,
    v.room,
    v.cursor,
    length-drop k.kate_pos (text k),
    length-take k.kate_len k.kate_buf,
  )

  byte_of-before :
      (j : ℕ) → byte_of (doc k).before j ≡ (if ltb j k.kate_pos then byte_of k.kate_buf j else 0)
  byte_of-before j =
      ground (
        arith,
        v.cursor,
        get_or-take k.kate_pos j (text k) 0,
        get_or-take k.kate_len j k.kate_buf 0,
      )

  byte_of-after :
      (j : ℕ)
      → byte_of (doc k).after j
        ≡ (if ltb (k.kate_pos + j) k.kate_len then byte_of k.kate_buf (k.kate_pos + j) else 0)
  byte_of-after j =
      get_or-drop k.kate_pos j (text k) 0 ∙ get_or-take k.kate_len (k.kate_pos + j) k.kate_buf 0

-- The documents of two states of the editor agree where their cursors, lengths and bytes do.
doc_ext :
    (k : Kate) (d : Doc)
    → IsKate k
    → length d.before ≡ k.kate_pos
    → length d.after ≡ k.kate_len - k.kate_pos
    → ((j : ℕ) → j < k.kate_pos → byte_of d.before j ≡ byte_of k.kate_buf j)
    → ((j : ℕ)
        → k.kate_pos + j < k.kate_len
        → byte_of d.after j ≡ byte_of k.kate_buf (k.kate_pos + j))
    → doc k ≡ d
doc_ext k d v lb la b a =
    let e : (doc k).before ≡ d.before =
      list_ext (doc k).before d.before 0 (length-before k v ∙ sym lb) (λ j.
        elim (Bool-cases (ltb j k.kate_pos)) [
          | inl y ↦ ground (arith, y, byte_of-before k v j, b j (ground (arith, y)))
          | inr n ↦ ground (arith, n, byte_of-before k v j, get_or_past d.before j 0 (ground arith))
        ]) in
    let f : (doc k).after ≡ d.after =
      list_ext (doc k).after d.after 0 (length-after k v ∙ sym la) (λ j.
        elim (Bool-cases (ltb (k.kate_pos + j) k.kate_len)) [
          | inl y ↦ ground (arith, y, byte_of-after k v j, a j (ground (arith, y)))
          | inr n ↦ ground (arith, n, byte_of-after k v j, get_or_past d.after j 0 (ground arith))
        ]) in
    cc (e, f)

take_none : (xs : List ℕ) → length xs ≡ 0 → take (length xs - 1) xs ≡ xs
take_none [] h = refl
take_none (x ∷ xs) h = absurd (omega arith)

drop_none : (xs : List ℕ) → length xs ≡ 0 → drop 1 xs ≡ xs
drop_none [] h = refl
drop_none (x ∷ xs) h = absurd (omega arith)

suc_sub : (a b : ℕ) → suc a + b - 1 ≡ a + b
suc_sub a b = omega arith

module _ (k : Kate) (v : IsKate k) where
  typed_at : (c j : ℕ) → j ≡ k.kate_pos → byte_of (c ∷ []) (j - k.kate_pos) ≡ c
  typed_at c j e = let q : j - k.kate_pos ≡ 0 = omega arith in rw q refl

  total : length (doc k).before + length (doc k).after ≡ k.kate_len
  total = omega (arith, v.cursor, length-before k v, length-after k v)

  pub kate_insert-IsKate : (c : ℕ) → IsKate (kate_insert k c)
  unfolding kate_insert kate_shiftright
  kate_insert-IsKate c =
      branch IsKate (leb 4095 k.kate_len) (λ y. v)
        (λ n. record {
          buf =
              length-set (shift_from (k.kate_len - k.kate_pos) k.kate_pos k.kate_buf) k.kate_pos c
              ∙ length-shift_from (k.kate_len - k.kate_pos) k.kate_pos k.kate_buf
              ∙ v.buf;
          room = ground (arith, n);
          cursor = omega (arith, v.cursor);
        })

  pub kate_backspace-IsKate : IsKate (kate_backspace k)
  unfolding kate_backspace
  kate_backspace-IsKate =
      branch IsKate (k.kate_pos == 0) (λ y. v)
        (λ n. record {
          buf =
              length-shift_down (k.kate_len - (k.kate_pos - 1)) (k.kate_pos - 1) k.kate_buf ∙ v.buf;
          room = omega (arith, v.room);
          cursor = omega (arith, v.cursor);
        })

  pub kate_delkey-IsKate : IsKate (kate_delkey k)
  unfolding kate_delkey
  kate_delkey-IsKate =
      branch IsKate (leb k.kate_len k.kate_pos) (λ y. v)
        (λ n. record {
          buf = length-shift_down (k.kate_len - k.kate_pos - 1) k.kate_pos k.kate_buf ∙ v.buf;
          room = omega (arith, v.room);
          cursor = ground (arith, n);
        })

  doc-kate_insert : (c : ℕ) → doc (kate_insert k c) ≡ put_char c (doc k)
  unfolding kate_insert kate_shiftright
  doc-kate_insert c = elim (Bool-cases (leb 4095 k.kate_len)) [
    | inl y ↦ ground (arith, y, total)
    | inr n ↦
        let rounds : ℕ = k.kate_len - k.kate_pos in
        let buf : List ℕ = shift_from rounds k.kate_pos k.kate_buf in
        let next : Kate = record {
          kate_buf = set buf k.kate_pos c;
          kate_len = suc k.kate_len;
          kate_pos = suc k.kate_pos;
          kate_mod = true;
        } in
        let typed : Doc = record (doc k) { before = (doc k).before ++ c ∷ [] } in
        let e : kate_insert k c ≡ next = ground (arith, n) in
        let f : put_char c (doc k) ≡ typed = ground (arith, n, total) in
        let at : (j : ℕ)
            → byte_of next.kate_buf j ≡ (if k.kate_pos == j then c else byte_of buf j) =
          λ j. get_or-set buf k.kate_pos j c 0 (
            omega
              (arith, v.room, v.cursor, v.buf, length-shift_from rounds k.kate_pos k.kate_buf)) in
        let moved = λ (j : ℕ).
          byte_of-shift_from rounds k.kate_pos k.kate_buf j
            (omega (arith, v.room, v.cursor, v.buf)) in
        rw (e, f)
          (doc_ext next typed (rw e at (kate_insert-IsKate c))
            (omega (arith, length-append (doc k).before (c ∷ []), length-before k v))
            (omega (arith, length-after k v))
            (λ j h. ground (
              arith,
              h,
              at j,
              moved j,
              get_or-append (doc k).before (c ∷ []) j 0,
              length-before k v,
              byte_of-before k v j,
              typed_at c j,
            ))
            (λ j h. ground (
              arith,
              h,
              at (suc k.kate_pos + j),
              moved (suc k.kate_pos + j),
              byte_of-after k v j,
              suc_sub k.kate_pos j,
            )))
  ]

  doc-kate_backspace : doc (kate_backspace k) ≡ erase_before (doc k)
  unfolding kate_backspace
  doc-kate_backspace = elim (Bool-cases (k.kate_pos == 0)) [
    | inl y ↦
        let none : length (doc k).before ≡ 0 = ground (arith, y, length-before k v) in
        let e : kate_backspace k ≡ k = ground (arith, y) in
        rw (e, take_none (doc k).before none) refl
    | inr n ↦
        let p : ℕ = k.kate_pos - 1 in
        let rounds : ℕ = k.kate_len - p in
        let next : Kate = record {
          kate_buf = shift_down rounds p k.kate_buf;
          kate_len = k.kate_len - 1;
          kate_pos = p;
          kate_mod = true;
        } in
        let e : kate_backspace k ≡ next = ground (arith, n) in
        let some_before : 0 < k.kate_pos = ground (arith, n) in
        let moved = λ (j : ℕ).
          byte_of-shift_down rounds p k.kate_buf j (omega (arith, v.room, v.cursor, v.buf)) in
        rw e (
          doc_ext next (erase_before (doc k)) (rw e at kate_backspace-IsKate)
            (omega
              (arith, length-take (length (doc k).before - 1) (doc k).before, length-before k v))
            (omega (arith, length-after k v, v.cursor))
            (λ j h. ground (
              arith,
              h,
              moved j,
              get_or-take (length (doc k).before - 1) j (doc k).before 0,
              length-before k v,
              byte_of-before k v j,
            ))
            (λ j h.
              let q : suc (p + j) ≡ k.kate_pos + j = omega arith in
              ground (
                arith,
                h,
                v.cursor,
                moved (p + j),
                byte_of-after k v j,
                ap (byte_of k.kate_buf) q,
              )))
  ]

  doc-kate_delkey : doc (kate_delkey k) ≡ erase_after (doc k)
  unfolding kate_delkey
  doc-kate_delkey = elim (Bool-cases (leb k.kate_len k.kate_pos)) [
    | inl y ↦
        let none : length (doc k).after ≡ 0 = ground (arith, y, length-after k v) in
        let e : kate_delkey k ≡ k = ground (arith, y) in rw (e, drop_none (doc k).after none) refl
    | inr n ↦
        let rounds : ℕ = k.kate_len - k.kate_pos - 1 in
        let next : Kate = record {
          kate_buf = shift_down rounds k.kate_pos k.kate_buf;
          kate_len = k.kate_len - 1;
          kate_pos = k.kate_pos;
          kate_mod = true;
        } in
        let e : kate_delkey k ≡ next = ground (arith, n) in
        let some_after : k.kate_pos < k.kate_len = ground (arith, n) in
        let moved = λ (j : ℕ).
          byte_of-shift_down rounds k.kate_pos k.kate_buf j
            (omega (arith, v.room, v.cursor, v.buf)) in
        rw e (
          doc_ext next (erase_after (doc k)) (rw e at kate_delkey-IsKate) (length-before k v)
            (omega (arith, length-drop 1 (doc k).after, length-after k v))
            (λ j h. ground (arith, h, moved j, byte_of-before k v j))
            (λ j h.
              let q : suc (k.kate_pos + j) ≡ k.kate_pos + (1 + j) = omega arith in
              ground (
                arith,
                h,
                moved (k.kate_pos + j),
                get_or-drop 1 j (doc k).after 0,
                byte_of-after k v (1 + j),
                ap (byte_of k.kate_buf) q,
              )))
  ]

-- With the cursor in the text and room for the terminator, typing a character, Backspace and Del do
-- to the text before the cursor and the text after it what they should: the character is added
-- before the cursor, unless there are 4095 of them, the last one before it is taken away, or the
-- first one after it.
pub doc-edits :
    (k : Kate) (c : ℕ)
    → IsKate k
    → (doc (kate_insert k c) ≡ put_char c (doc k))
      × (doc (kate_backspace k) ≡ erase_before (doc k))
      × (doc (kate_delkey k) ≡ erase_after (doc k))
doc-edits k c v = (doc-kate_insert k v c, doc-kate_backspace k v, doc-kate_delkey k v)
