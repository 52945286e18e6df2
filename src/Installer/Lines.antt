-- ===== src/Installer/Lines.antt =====
-- kernel/installer.c: what the line of /etc/passwd holds.
use fur_os.Prelude.{
  ℕ, zero, suc, ◌≤◌, ◌≡◌, refl, sym, ap, ◌∙◌, ◌||◌, List, [], ◌∷◌, ◌++◌, arith, length, take, leb,
  ◌==◌, bool_branch, length-append, length-take, take-append, snoc-append,
}
use fur_os.Fs.Resolve.Leaf.{HasNo}
use fur_os.Installer.{append_upto, root_line, user_rest, user_tail, passwd_line}

take_all : (xs : List ℕ) (n : ℕ) → length xs ≤ n → take n (xs ++ []) ≡ xs
take_all [] zero h = refl
take_all [] (suc n) h = refl
take_all (x ∷ xs) zero h = absurd (omega arith)
take_all (x ∷ xs) (suc n) h = ap (λ r. x ∷ r) (take_all xs n (omega arith))

take-take : (n : ℕ) (xs ys : List ℕ) → take n (take n xs ++ ys) ≡ take n (xs ++ ys)
take-take zero xs ys = refl
take-take (suc n) [] ys = refl
take-take (suc n) (x ∷ xs) ys = ap (λ r. x ∷ r) (take-take n xs ys)

append_upto-take :
    (line src : List ℕ)
    → length line ≤ 120
    → HasNo 0 src
    → append_upto line src ≡ take 120 (line ++ src)
unfolding append_upto
append_upto-take line [] h z = sym (take_all line 120 h)
append_upto-take line (c ∷ src) h z =
    bool_branch (λ r. r ≡ take 120 (line ++ c ∷ src)) (c == 0 || leb 120 (length line))
      (λ y.
        let full : length line ≡ 120 = ground (arith, h, y, z.0) in
        sym (ap (λ n. take n (line ++ c ∷ src)) (sym full) ∙ take-append line (c ∷ src)))
      (λ n.
        append_upto-take (line ++ c ∷ []) src (ground (arith, n, length-append line (c ∷ []))) z.1
        ∙ ap (take 120) (snoc-append line c src))

append_upto-first :
    (line src : List ℕ) → HasNo 0 src → append_upto (take 120 line) src ≡ take 120 (line ++ src)
append_upto-first line src z =
    append_upto-take (take 120 line) src (omega (arith, length-take 120 line)) z
    ∙ take-take 120 line src

-- The line of the user, for a name without a terminator in it, and the line of root before it are
-- the first 120 bytes of what they should be; so they fit the array of 128, but a name of 31
-- characters, which the field takes, loses the end of its line.
pub passwd_line-take :
    (username : List ℕ)
    → HasNo 0 username
    → passwd_line username
      ≡ take 120 ((((root_line ++ username) ++ user_rest) ++ username) ++ user_tail)
unfolding passwd_line
passwd_line-take u z =
    let a : append_upto root_line u ≡ take 120 (root_line ++ u) = append_upto-first root_line u z in
    let b =
      ap (λ l. append_upto l user_rest) a
      ∙ append_upto-first (root_line ++ u) user_rest (omega arith) in
    let c = ap (λ l. append_upto l u) b ∙ append_upto-first ((root_line ++ u) ++ user_rest) u z in
    ap (λ l. append_upto l user_tail) c
    ∙ append_upto-first (((root_line ++ u) ++ user_rest) ++ u) user_tail (omega arith)
