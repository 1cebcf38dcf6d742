-- ===== src/Base/Int.antt =====
-- Signed integers over the native numbers, under the library's names: what a C `int` difference is.
use Prim.Native.Nat.{ℕ, ◌-◌}
use mathlib.Core.Path.{◌≡◌}
use mathlib.Core.Logic.{◌↔◌}
use native.Mathlib.Omega.{arith}
use ao_os.Base.Tests.{leb, if◌then◌else◌}

-- `negsuc n` is -(n + 1).
pub data ℤ : Type 0 where
  pos : ℕ → ℤ
  negsuc : ℕ → ℤ

-- a - b, as an integer
abbrev pub sub_ℕ : ℕ → ℕ → ℤ
sub_ℕ a b = if leb b a then pos (a - b) else negsuc (b - a - 1)

pub sub_ℕ-eq-zero : (a b : ℕ) → (sub_ℕ a b ≡ pos 0) ↔ (a ≡ b)
sub_ℕ-eq-zero a b = (λ h. ground arith, λ h. ground arith)
