-- ===== src/Prelude/Tests.antt =====
-- Boolean tests on the native numbers, the conditional, and case lemmas.
use Prim.Native.Nat.{ℕ, ◌<◌, compare, Ordering}
use mathlib.Core.Path.{◌≡◌, refl}
use mathlib.Core.Logic.{◌↔◌, ◌⊎◌, inl, inr}
use mathlib.Core.Bool.{Bool, true, false}
use mathlib.Core.Option.{Option, none, some}
use native.Mathlib.Omega.{arith}

abbrev pub ltb : ℕ → ℕ → Bool
ltb a b = elim (compare a b) [ Ordering.lt ↦ true | _ ↦ false ]

abbrev pub leb : ℕ → ℕ → Bool
leb a b = elim (compare a b) [ Ordering.gt ↦ false | _ ↦ true ]

infix 50 ◌==◌
abbrev pub ◌==◌ : ℕ → ℕ → Bool
a == b = elim (compare a b) [ Ordering.eq ↦ true | _ ↦ false ]

infix 1 if◌then◌else◌
abbrev pub if◌then◌else◌ {ℓ} : {A : Type ℓ} → Bool → A → A → A
if true then x else y = x
if false then x else y = y

pub ==_iff : (a b : ℕ) → ((a == b) ≡ true) ↔ (a ≡ b)
==_iff a b = ground arith

pub ==_refl : (a : ℕ) → (a == a) ≡ true
==_refl a = ground arith

pub lt→ltb : (a b : ℕ) → a < b → ltb a b ≡ true
lt→ltb a b h = ground arith

-- To split on a computed value and keep the equation.
pub Bool-cases : (b : Bool) → (b ≡ true) ⊎ (b ≡ false)
Bool-cases true = inl refl
Bool-cases false = inr refl

pub Option-cases {ℓ} : {A : Type ℓ} (o : Option A) → (o ≡ none) ⊎ ((a : A) × (o ≡ some a))
Option-cases none = inl refl
Option-cases (some a) = inr (a, refl)

-- A property of both branches, each under its test, is one of the whole.
pub branch {ℓ κ} :
    {A : Type ℓ} {a b : A}
    → (P : A → Type κ) (c : Bool) → (c ≡ true → P a)
    → (c ≡ false → P b)
    → P (if c then a else b)
branch P true h k = h refl
branch P false h k = k refl

pub option_branch {ℓ κ μ} :
    {A : Type ℓ} {B : Type μ} {a : A} {f : B → A}
    → (P : A → Type κ) (o : Option B) → (o ≡ none → P a)
    → ((i : B) → o ≡ some i → P (f i))
    → P (elim o [ none ↦ a | some i ↦ f i ])
option_branch P none h k = h refl
option_branch P (some i) h k = k i refl

-- The same where the branches wait, as those of a loop do.
pub bool_branch {ℓ κ} :
    {A : Type ℓ} {a b : A}
    → (P : A → Type κ) (c : Bool) → (c ≡ true → P a)
    → (c ≡ false → P b)
    → P (elim c [ true ↦ a | false ↦ b ])
bool_branch P true h k = h refl
bool_branch P false h k = k refl
