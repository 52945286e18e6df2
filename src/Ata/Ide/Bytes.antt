-- ===== src/Ata/Ide/Bytes.antt =====
-- kernel/ata.c: the bytes of a sector as the words that go to an IDE disk and come from it.
use fur_os.Prelude.{
  ℕ, zero, suc, ◌+◌, ◌*◌, ◌/◌, ◌%◌, ◌<◌, ◌≡◌, refl, ap, ◌∙◌, List, [], ◌∷◌, length, arith,
}
use fur_os.KString.{byte_at}
use fur_os.KString.Bytes.{IsBytes}
use fur_os.Ata.Ide.{to_bytes}
use fur_os.Ata.Ide.Transfers.{words_of}

word_at : List ℕ → ℕ → ℕ
word_at buffer i = byte_at buffer (i * 2) % 256 + byte_at buffer (i * 2 + 1) % 256 * 256

word_at_past : (i a b : ℕ) (buffer : List ℕ) → word_at (a ∷ b ∷ buffer) (suc i) ≡ word_at buffer i
unfolding word_at
word_at_past i a b buffer =
    let e : suc i * 2 ≡ suc (suc (i * 2)) = omega arith in
    let f : suc i * 2 + 1 ≡ suc (suc (i * 2 + 1)) = omega arith in
    ap
      (λ j. byte_at (a ∷ b ∷ buffer) j % 256 + byte_at (a ∷ b ∷ buffer) (suc i * 2 + 1) % 256 * 256)
      e
    ∙ ap (λ j. byte_at buffer (i * 2) % 256 + byte_at (a ∷ b ∷ buffer) j % 256 * 256) f

words_of_past :
    (n i a b : ℕ) (buffer : List ℕ) → words_of n (suc i) (a ∷ b ∷ buffer) ≡ words_of n i buffer
unfolding words_of word_at
words_of_past zero i a b buffer = refl
words_of_past (suc n) i a b buffer =
    ap (λ w. w ∷ words_of n (suc (suc i)) (a ∷ b ∷ buffer)) (word_at_past i a b buffer)
    ∙ ap (λ ws. word_at buffer i ∷ ws) (words_of_past n (suc i) a b buffer)

-- A word holds its two bytes.
unword :
    (a b : ℕ) (ws : List ℕ)
    → a < 256
    → b < 256
    → to_bytes ((a % 256 + b % 256 * 256) ∷ ws) ≡ a ∷ b ∷ to_bytes ws
unfolding to_bytes
unword a b ws ha hb =
    ap (λ x. x ∷ ((a % 256 + b % 256 * 256) / 256 % 256) ∷ to_bytes ws) (omega (arith, ha))
    ∙ ap (λ x. a ∷ x ∷ to_bytes ws) (omega (arith, hb))

pub to_bytes-words_of :
    (n : ℕ) (buffer : List ℕ)
    → length buffer ≡ n * 2
    → IsBytes buffer
    → to_bytes (words_of n 0 buffer) ≡ buffer
unfolding words_of to_bytes IsBytes
to_bytes-words_of zero [] e h = refl
to_bytes-words_of zero (a ∷ buffer) e h = absurd (omega (arith, e))
to_bytes-words_of (suc n) [] e h = absurd (omega (arith, e))
to_bytes-words_of (suc n) (a ∷ []) e h = absurd (omega (arith, e))
to_bytes-words_of (suc n) (a ∷ b ∷ buffer) e h =
    unword a b (words_of n 1 (a ∷ b ∷ buffer)) (h 0) (h 1)
    ∙ ap (λ ws. a ∷ b ∷ to_bytes ws) (words_of_past n 0 a b buffer)
    ∙ ap (λ bs. a ∷ b ∷ bs) (to_bytes-words_of n buffer (omega (arith, e)) (λ i. h (suc (suc i))))
