-- ===== src/Prelude/Table.antt =====
-- Facts about small ranges, checked by evaluation.
use Prim.Native.Nat.{ℕ, zero, suc, ◌<◌}
use mathlib.Core.Path.{◌≡◌}
use mathlib.Core.Bool.{Bool, true, false, ◌&&◌}
use mathlib.Core.Logic.{inl, inr}
use fur_os.Prelude.Tests.{◌==◌, if◌then◌else◌, Bool-cases}
use native.Mathlib.Omega.{arith}

-- Whether `test` passes from 0 up to `bound`, the largest number first.
unfoldable pub passes_below : ℕ → (ℕ → Bool) → Bool
passes_below zero test = true
passes_below (suc k) test = if test k then passes_below k test else false

pub passes_below_sound :
    (bound : ℕ) (test : ℕ → Bool) (i : ℕ)
    → i < bound
    → passes_below bound test ≡ true
    → test i ≡ true
unfolding passes_below
passes_below_sound (suc k) test i below passed =
    let rest : i < k → passes_below k test ≡ true → test i ≡ true = passes_below_sound k test i in
    elim (Bool-cases (i == k)) [
      | inl last ↦ ground (arith, last, passed)
      | inr other ↦ ground (arith, other, passed, rest)
    ]
passes_below_sound zero test i below passed = elim below [ ]

-- A fact about both Boolean values.
abbrev pub all_flags : (Bool → Bool) → Bool
all_flags p = p true && p false

pub all_flags_sound : (p : Bool → Bool) (b : Bool) → all_flags p ≡ true → p b ≡ true
all_flags_sound p true h = ground arith
all_flags_sound p false h = ground arith
