-- ===== src/Base/Tests.antt =====
-- Boolean tests on the native numbers, the conditional, and case lemmas that keep the equation.
use Prim.Native.Nat.{ℕ, ◌<◌, compare, Ordering}
use mathlib.Core.Path.{◌≡◌, refl}
use mathlib.Core.Logic.{◌≢◌, ◌↔◌, ◌⊎◌, inl, inr}
use mathlib.Core.Bool.{Bool, true, false, ◌&&◌}
use mathlib.Core.Option.{Option, none, some}
use native.Mathlib.Omega.{arith}

abbrev pub ltb : ℕ → ℕ → Bool
ltb a b = elim (compare a b) [ Ordering.lt ↦ true | _ ↦ false ]

abbrev pub leb : ℕ → ℕ → Bool
leb a b = elim (compare a b) [ Ordering.gt ↦ false | _ ↦ true ]

infix 50 ◌==◌
abbrev pub ◌==◌ : ℕ → ℕ → Bool
a == b = elim (compare a b) [ Ordering.eq ↦ true | _ ↦ false ]

infix 1 if◌then◌else◌
abbrev pub if◌then◌else◌ {ℓ} : {A : Type ℓ} → Bool → A → A → A
if true then x else y = x
if false then x else y = y

-- What holds of both branches, each with its condition, holds of the conditional.
pub if_holds {ℓ κ} :
    {A : Type ℓ} (P : A → Type κ) (b : Bool) (x y : A)
    → (b ≡ true → P x)
    → (b ≡ false → P y)
    → P (if b then x else y)
if_holds P true x y px py = px refl
if_holds P false x y px py = py refl

pub and_true : (a b : Bool) → (a && b) ≡ true → (a ≡ true) × (b ≡ true)
and_true true b h = (refl, h)
and_true false b h = absurd (cc h)

pub Bool-cases : (b : Bool) → (b ≡ true) ⊎ (b ≡ false)
Bool-cases true = inl refl
Bool-cases false = inr refl

pub Option-cases {ℓ} : {A : Type ℓ} (o : Option A) → (o ≡ none) ⊎ ((a : A) × (o ≡ some a))
Option-cases none = inl refl
Option-cases (some a) = inr (a, refl)

pub ==_iff : (a b : ℕ) → ((a == b) ≡ true) ↔ (a ≡ b)
==_iff a b = ground arith

pub ==_refl : (a : ℕ) → (a == a) ≡ true
==_refl a = ground arith

pub ==_ne : (a b : ℕ) → a ≢ b → (a == b) ≡ false
==_ne a b h = ground arith

ltb→lt : (a b : ℕ) → ltb a b ≡ true → a < b
ltb→lt a b h = ground arith

lt→ltb : (a b : ℕ) → a < b → ltb a b ≡ true
lt→ltb a b h = ground arith
