-- ===== src/Base/Xor.antt =====
-- Exclusive or of numbers as an operation on their binary digits: an abelian group in which every
-- number is its own inverse.
use Prim.Native.Nat.{ℕ, zero, suc, ◌+◌, ◌*◌, ◌/◌, ◌%◌, ◌≤◌, bit_xor, bit_xor-bitwise, differ}
use mathlib.Core.Path.{◌≡◌, refl, sym, ap, ap₂, ◌∙◌}
use native.Mathlib.Omega.{arith}
use nodalmerge.Base.Digits.{digits_halve}

pub zero-xor : (b : ℕ) → bit_xor 0 b ≡ b
zero-xor b = bit_xor-bitwise 0 b

differ_mod : (x y : ℕ) → x ≤ 1 → y ≤ 1 → differ x y ≡ (x + y) % 2
differ_mod zero y p q = omega arith
differ_mod (suc zero) zero p q = refl
differ_mod (suc zero) (suc zero) p q = refl
differ_mod (suc zero) (suc (suc y)) p q = absurd (omega arith)
differ_mod (suc (suc x)) y p q = absurd (omega arith)

-- the lowest digit, and the others
xor_step : (a b : ℕ) → bit_xor a b ≡ bit_xor (a / 2) (b / 2) * 2 + (a % 2 + b % 2) % 2
xor_step zero b = omega (arith, zero-xor b, zero-xor (b / 2))
xor_step (suc a) b =
    bit_xor-bitwise (suc a) b
    ∙ digits_halve (λ b. b) differ a b
    ∙ omega (
      arith,
      bit_xor-bitwise (suc a / 2) (b / 2),
      differ_mod (suc a % 2) (b % 2) (omega arith) (omega arith),
    )

xor_comm_fuel : (n a b : ℕ) → a + b ≤ n → bit_xor a b ≡ bit_xor b a
xor_comm_fuel n zero zero h = refl
xor_comm_fuel zero zero (suc b) h = absurd (omega arith)
xor_comm_fuel zero (suc a) b h = absurd (omega arith)
xor_comm_fuel (suc n) zero (suc b) h =
    omega
      (arith, xor_step 0 (suc b), xor_step (suc b) 0, xor_comm_fuel n 0 (suc b / 2) (omega arith))
xor_comm_fuel (suc n) (suc a) b h = omega (
  arith,
  xor_step (suc a) b,
  xor_step b (suc a),
  xor_comm_fuel n (suc a / 2) (b / 2) (omega arith),
)

pub xor_comm : (a b : ℕ) → bit_xor a b ≡ bit_xor b a
xor_comm a b = xor_comm_fuel (a + b) a b (omega arith)

pub xor-zero : (a : ℕ) → bit_xor a 0 ≡ a
xor-zero a = xor_comm a 0 ∙ zero-xor a

xor_self_fuel : (n a : ℕ) → a ≤ n → bit_xor a a ≡ 0
xor_self_fuel n zero h = zero-xor 0
xor_self_fuel zero (suc a) h = absurd (omega arith)
xor_self_fuel (suc n) (suc a) h =
    omega (arith, xor_step (suc a) (suc a), xor_self_fuel n (suc a / 2) (omega arith))

pub xor_self : (a : ℕ) → bit_xor a a ≡ 0
xor_self a = xor_self_fuel a a (omega arith)

xor_half : (a b : ℕ) → bit_xor a b / 2 ≡ bit_xor (a / 2) (b / 2)
xor_half a b = omega (arith, xor_step a b)

xor_low : (a b : ℕ) → bit_xor a b % 2 ≡ (a % 2 + b % 2) % 2
xor_low a b = omega (arith, xor_step a b)

xor_left :
    (a b c : ℕ)
    → bit_xor (bit_xor a b) c
      ≡ bit_xor (bit_xor (a / 2) (b / 2)) (c / 2) * 2 + ((a % 2 + b % 2) % 2 + c % 2) % 2
xor_left a b c =
    xor_step (bit_xor a b) c
    ∙ ap₂ (λ h l. bit_xor h (c / 2) * 2 + (l + c % 2) % 2) (xor_half a b) (xor_low a b)

xor_right :
    (a b c : ℕ)
    → bit_xor a (bit_xor b c)
      ≡ bit_xor (a / 2) (bit_xor (b / 2) (c / 2)) * 2 + (a % 2 + (b % 2 + c % 2) % 2) % 2
xor_right a b c =
    xor_step a (bit_xor b c)
    ∙ ap₂ (λ h l. bit_xor (a / 2) h * 2 + (a % 2 + l) % 2) (xor_half b c) (xor_low b c)

xor_assoc_fuel : (n a b c : ℕ) → a + b + c ≤ n → bit_xor (bit_xor a b) c ≡ bit_xor a (bit_xor b c)
xor_assoc_fuel zero zero zero c h =
    ap (λ x. bit_xor x c) (zero-xor 0)
    ∙ zero-xor c
    ∙ sym (zero-xor c)
    ∙ sym (zero-xor (bit_xor 0 c))
xor_assoc_fuel zero zero (suc b) c h = absurd (omega arith)
xor_assoc_fuel zero (suc a) b c h = absurd (omega arith)
xor_assoc_fuel (suc n) a b c h =
    omega (
      arith,
      xor_left a b c,
      xor_right a b c,
      xor_assoc_fuel n (a / 2) (b / 2) (c / 2) (omega arith),
    )

pub xor_assoc : (a b c : ℕ) → bit_xor (bit_xor a b) c ≡ bit_xor a (bit_xor b c)
xor_assoc a b c = xor_assoc_fuel (a + b + c) a b c (omega arith)

-- what both sides hold cancels
pub xor_cancel : (x y t : ℕ) → bit_xor (bit_xor x t) (bit_xor t y) ≡ bit_xor x y
xor_cancel x y t =
    xor_assoc x t (bit_xor t y)
    ∙ ap (bit_xor x) (sym (xor_assoc t t y) ∙ ap (λ z. bit_xor z y) (xor_self t) ∙ zero-xor y)

pub xor_rotate : (m s t : ℕ) → bit_xor (bit_xor m t) s ≡ bit_xor t (bit_xor m s)
xor_rotate m s t = ap (λ z. bit_xor z s) (xor_comm m t) ∙ xor_assoc t m s

pub xor_last : (m s t : ℕ) → bit_xor m (bit_xor s t) ≡ bit_xor t (bit_xor m s)
xor_last m s t = sym (xor_assoc m s t) ∙ xor_comm (bit_xor m s) t
