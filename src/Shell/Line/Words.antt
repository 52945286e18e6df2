-- ===== src/Shell/Line/Words.antt =====
-- kernel/shell.c: `shell_parse` against the words of a line.
use fur_os.Prelude.{
  ℕ, zero, suc, ◌≡◌, refl, ap, sym, ◌∙◌, Bool, true, false, ◌&&◌, not, List, [], ◌∷◌, take, drop,
  ◌==◌, if◌then◌else◌, Bool-cases, inl, inr, arith,
}
use fur_os.KString.{byte_at}
use fur_os.Shell.Numbers.{is_space}
use fur_os.Shell.Line.{skip_spaces, word_at, skip_word, shell_parse}

abbrev pub in_word : ℕ → Bool
in_word c = not (c == 0) && not (is_space c)

-- The byte `c` before a line with these words.
abbrev pub extend : ℕ → Bool → List (List ℕ) → List (List ℕ)
extend c joined [] = (c ∷ []) ∷ []
extend c joined (w ∷ ws) = if joined then (c ∷ w) ∷ ws else (c ∷ []) ∷ w ∷ ws

-- The words of a string: its longest runs of bytes other than blanks.
unfoldable pub words : List ℕ → List (List ℕ)
words [] = []
words (c ∷ s) =
    let ws = words s in
    if c == 0 then [] else if is_space c then ws else extend c (in_word (byte_at s 0)) ws

words_none : (s : List ℕ) → (byte_at s 0 == 0) ≡ true → words s ≡ []
unfolding words
words_none [] h = refl
words_none (c ∷ s) h = ground (arith, h)

words_blank : (c : ℕ) (s : List ℕ) → is_space c ≡ true → words (c ∷ s) ≡ words s
unfolding words
words_blank c s h = ground arith

words_byte :
    (c : ℕ) (s : List ℕ)
    → in_word c ≡ true
    → words (c ∷ s) ≡ extend c (in_word (byte_at s 0)) (words s)
unfolding words
words_byte c s h = ground arith

words-skip_spaces : (s : List ℕ) → words (skip_spaces s) ≡ words s
unfolding skip_spaces
words-skip_spaces [] = refl
words-skip_spaces (c ∷ s) = elim (Bool-cases (is_space c)) [
  | inl y ↦ rw (words_blank c s y, y) (words-skip_spaces s)
  | inr n ↦ let q : skip_spaces (c ∷ s) ≡ c ∷ s = ground (arith, n) in ap words q
]

word_at_byte : (c : ℕ) (s : List ℕ) → in_word c ≡ true → word_at (c ∷ s) ≡ c ∷ word_at s
unfolding word_at
word_at_byte c s h = ground (arith, h)

word_at_end : (c : ℕ) (s : List ℕ) → in_word c ≡ false → word_at (c ∷ s) ≡ []
unfolding word_at
word_at_end c s h = ground (arith, h)

skip_word_byte : (c : ℕ) (s : List ℕ) → in_word c ≡ true → skip_word (c ∷ s) ≡ skip_word s
unfolding skip_word
skip_word_byte c s h = ground (arith, h)

skip_word_end : (c : ℕ) (s : List ℕ) → in_word c ≡ false → skip_word (c ∷ s) ≡ c ∷ s
unfolding skip_word
skip_word_end c s h = ground (arith, h)

extend_new : (c : ℕ) (ws : List (List ℕ)) → extend c false ws ≡ (c ∷ []) ∷ ws
extend_new c [] = refl
extend_new c (w ∷ ws) = refl

words-skip_word :
    (c : ℕ) (s : List ℕ) → in_word c ≡ true → words (c ∷ s) ≡ word_at (c ∷ s) ∷ words (skip_word s)
words-skip_word c [] h =
    rw (words_byte c [] h, word_at_byte c [] h) (unfold words word_at skip_word in refl)
words-skip_word c (d ∷ s) h = elim (Bool-cases (in_word d)) [
  | inl y ↦ rw (
    words_byte c (d ∷ s) h,
    word_at_byte c (d ∷ s) h,
    words-skip_word d s y,
    skip_word_byte d s y,
    y,
  )
  | inr n ↦
      rw
        (
          words_byte c (d ∷ s) h,
          word_at_byte c (d ∷ s) h,
          word_at_end d s n,
          skip_word_end d s n,
          n,
        )
        (extend_new c (words (d ∷ s)))
]

skip_spaces_head : (s : List ℕ) → is_space (byte_at (skip_spaces s) 0) ≡ false
unfolding skip_spaces
skip_spaces_head [] = refl
skip_spaces_head (c ∷ s) = elim (Bool-cases (is_space c)) [
  | inl y ↦ rw y (skip_spaces_head s)
  | inr n ↦ let q : byte_at (skip_spaces (c ∷ s)) 0 ≡ c = ground (arith, n) in ap is_space q ∙ n
]

skip_word_head : (s : List ℕ) → in_word (byte_at (skip_word s) 0) ≡ false
skip_word_head [] = unfold skip_word in refl
skip_word_head (c ∷ s) = elim (Bool-cases (in_word c)) [
  | inl y ↦ rw (skip_word_byte c s y) (skip_word_head s)
  | inr n ↦ rw (skip_word_end c s n) n
]

take_none : (room : ℕ) → take {A = List ℕ} room [] ≡ []
take_none zero = refl
take_none (suc room) = refl

-- The words from the end of a word on.
words_after :
    (room : ℕ) (q : List ℕ)
    → in_word (byte_at q 0) ≡ false
    → (if byte_at q 0 == 0 then [] else take room (words (drop 1 q))) ≡ take room (words q)
words_after room [] h = unfold words in sym (take_none room)
words_after room (c ∷ s) h = elim (Bool-cases (c == 0)) [
  | inl z ↦
      let q : words (c ∷ s) ≡ [] = unfold words in ground (arith, z) in
      rw (z, q) (sym (take_none room))
  | inr n ↦ rw (n, words_blank c s (ground (arith, n, h))) refl
]

-- One round of the loop, at a line that does not begin with a blank.
parse_round :
    (room : ℕ) (p : List ℕ)
    → is_space (byte_at p 0) ≡ false
    → (if byte_at p 0 == 0
        then []
        else word_at p
          ∷ (if byte_at (skip_word p) 0 == 0 then [] else take room (words (drop 1 (skip_word p)))))
      ≡ take (suc room) (words p)
parse_round room [] h = unfold words in refl
parse_round room (c ∷ s) h = elim (Bool-cases (c == 0)) [
  | inl z ↦ let q : words (c ∷ s) ≡ [] = unfold words in ground (arith, z) in rw (z, q) refl
  | inr n ↦
      let y : in_word c ≡ true = ground (arith, n, h) in
      rw (
        n,
        words-skip_word c s y,
        words_after room (skip_word (c ∷ s)) (skip_word_head (c ∷ s)),
        skip_word_byte c s y,
      )
]

-- For a buffer with room for `max_argv` arguments, `shell_parse` finds the first `max_argv` words
-- of the line, a word being a longest run of bytes other than blanks before the terminator.
pub shell_parse-words :
    (line : List ℕ) (max_argv : ℕ) → shell_parse line max_argv ≡ take max_argv (words line)
unfolding shell_parse
shell_parse-words line zero = refl
shell_parse-words line (suc room) = elim (Bool-cases (byte_at line 0 == 0)) [
  | inl z ↦ rw (z, words_none line z) refl
  | inr n ↦
      rw (n, shell_parse-words (drop 1 (skip_word (skip_spaces line))) room)
        (parse_round room (skip_spaces line) (skip_spaces_head line)
          ∙ ap (take (suc room)) (words-skip_spaces line))
]
