-- ===== src/Fs/Find/Scan.antt =====
-- The search loop of `alloc_node`, `find_child` and `fs_remove`: the first index that passes.
use mathlib.Core.Path.{fun_ext, ap}
use fur_os.Prelude.{
  ℕ, zero, suc, ◌+◌, ◌≤◌, ◌<◌, ◌≡◌, Bool, true, false, none, some, arith, inl, inr, Bool-cases,
}
use fur_os.Fs.Find.{scan}

-- What the loop returns lies in its range and passes, and nothing before it does.
pub record IsFirst (lo hi : ℕ) (test : ℕ → Bool) (i : ℕ) : Type 0 where
  pub above : lo ≤ i
  pub below : i < hi
  pub passes : test i ≡ true
  pub first : (j : ℕ) → lo ≤ j → j < i → test j ≡ false

pub scan-IsFirst :
    (k lo : ℕ) (test : ℕ → Bool) (i : ℕ) → scan k lo test ≡ some i → IsFirst lo (lo + k) test i
unfolding scan
scan-IsFirst zero lo test i h = absurd (cc h)
scan-IsFirst (suc k) lo test i h = elim (Bool-cases (test lo)) [
  | inl e ↦ record {
    above = ground arith;
    below = ground arith;
    passes = ground arith;
    first = λ j a b. absurd (ground arith);
  }
  | inr e ↦
      let ih : IsFirst (suc lo) (suc lo + k) test i =
        scan-IsFirst k (suc lo) test i (ground arith) in
      record {
        above = omega (arith, ih.above);
        below = omega (arith, ih.below);
        passes = ih.passes;
        first = λ j a b. ground (arith, ih.first j);
      }
]

-- Where the loop finds nothing, nothing in its range passes.
pub scan-none :
    (k lo : ℕ) (test : ℕ → Bool) (j : ℕ)
    → scan k lo test ≡ none
    → lo ≤ j
    → j < lo + k
    → test j ≡ false
unfolding scan
scan-none zero lo test j h a b = absurd (omega arith)
scan-none (suc k) lo test j h a b = ground (arith, scan-none k (suc lo) test j)

-- The loop finds the only index that passes.
pub scan_unique :
    (k lo : ℕ) (test : ℕ → Bool) (i : ℕ)
    → lo ≤ i
    → i < lo + k
    → test i ≡ true
    → ((j : ℕ) → lo ≤ j → j < i → test j ≡ false)
    → scan k lo test ≡ some i
unfolding scan
scan_unique zero lo test i a b p f = absurd (omega arith)
scan_unique (suc k) lo test i a b p f = ground (
  arith,
  scan_unique k (suc lo) test i,
  f lo,
  (λ (q : suc lo ≤ i).
      scan_unique k (suc lo) test i q (omega arith) p (λ j c d. f j (omega arith) d)),
)

-- The loop reads its test at each index only.
pub scan_ext : (k lo : ℕ) (f g : ℕ → Bool) → ((i : ℕ) → f i ≡ g i) → scan k lo f ≡ scan k lo g
scan_ext k lo f g h = ap (scan k lo) (fun_ext h)
