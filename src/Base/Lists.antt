-- ===== src/Base/Lists.antt =====
-- Lists measured and cut by native numbers, under the library's names.
use Prim.Native.Nat.{ℕ, zero, suc, ◌+◌, ◌≤◌}
use mathlib.Core.Path.{◌≡◌, refl, ap}
use mathlib.Core.List.{List, [], ◌∷◌, ◌++◌}
use native.Mathlib.Omega.{arith}

module _ {ℓ} {A : Type ℓ} where
  abbrev pub length : List A → ℕ
  length [] = 0
  length (x ∷ xs) = suc (length xs)

  abbrev pub take : ℕ → List A → List A
  take zero xs = []
  take (suc n) [] = []
  take (suc n) (x ∷ xs) = x ∷ take n xs

  abbrev pub drop : ℕ → List A → List A
  drop zero xs = xs
  drop (suc n) [] = []
  drop (suc n) (x ∷ xs) = drop n xs

  pub length-append : (xs ys : List A) → length (xs ++ ys) ≡ length xs + length ys
  length-append [] ys = omega arith
  length-append (x ∷ xs) ys = omega (arith, length-append xs ys)

  pub length_take_le : (n : ℕ) (xs : List A) → length (take n xs) ≤ n
  length_take_le zero xs = omega arith
  length_take_le (suc n) [] = omega arith
  length_take_le (suc n) (x ∷ xs) = let h = length_take_le n xs in omega (arith, h)

  pub take_of_length_le : (n : ℕ) (xs : List A) → length xs ≤ n → take n xs ≡ xs
  take_of_length_le zero [] h = refl
  take_of_length_le zero (x ∷ xs) h = absurd (omega arith)
  take_of_length_le (suc n) [] h = refl
  take_of_length_le (suc n) (x ∷ xs) h = ap (λ ys. x ∷ ys) (take_of_length_le n xs (omega arith))
