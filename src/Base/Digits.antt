-- ===== src/Base/Digits.antt =====
-- The digits that a bitwise operation on numbers stands for: the rounds do not matter once they are
-- enough, and each digit is an operation on two digits.
use Prim.Native.Nat.{ℕ, zero, suc, ◌+◌, ◌*◌, ◌/◌, ◌%◌, ◌≤◌, digits}
use mathlib.Core.Path.{◌≡◌, refl, sym, ap, ◌∙◌}
use native.Mathlib.Omega.{arith}

module _ (last : ℕ → ℕ) (op : ℕ → ℕ → ℕ) where
  digits_last : (rounds b : ℕ) → digits last op rounds 0 b ≡ last b
  digits_last zero b = refl
  digits_last (suc rounds) b = refl

  digits_enough :
      (rounds more a b : ℕ)
      → a ≤ rounds
      → a ≤ more
      → digits last op rounds a b ≡ digits last op more a b
  digits_enough rounds more zero b h k = digits_last rounds b ∙ sym (digits_last more b)
  digits_enough zero more (suc a) b h k = absurd (omega (arith, h))
  digits_enough (suc rounds) zero (suc a) b h k = absurd (omega (arith, k))
  digits_enough (suc rounds) (suc more) (suc a) b h k =
      ap (λ rest. rest * 2 + op (suc a % 2) (b % 2))
        (digits_enough rounds more (suc a / 2) (b / 2) (omega (arith, h)) (omega (arith, k)))

  -- the lowest digit, and the others
  pub digits_halve :
      (a b : ℕ)
      → digits last op (suc a) (suc a) b
        ≡ digits last op (suc a / 2) (suc a / 2) (b / 2) * 2 + op (suc a % 2) (b % 2)
  digits_halve a b =
      ap (λ rest. rest * 2 + op (suc a % 2) (b % 2))
        (digits_enough a (suc a / 2) (suc a / 2) (b / 2) (omega arith) (omega arith))
