-- ===== src/Text/Index/Bits.antt =====
-- The lowest bit of a number, and the number without it, as core/crdt/src/text.rs computes them.
use Prim.Native.Nat.{bit_and, bit_and-bitwise}
use native.Mathlib.Nat.{pow-suc}
use nodalmerge.Base.{
  ℕ, zero, suc, ◌+◌, ◌-◌, ◌*◌, ◌/◌, ◌%◌, ◌^◌, ◌≤◌, ◌<◌, min, ◌≡◌, refl, sym, ap, ◌∙◌, inl, inr, ◌⊎◌,
  arith, ◌==◌, Bool-cases,
}
use nodalmerge.Base.Digits.{digits_halve}
use nodalmerge.Text.Index.{low_bit, below, usize_mod}

zero-bit_and : (b : ℕ) → bit_and 0 b ≡ 0
zero-bit_and b = bit_and-bitwise 0 b

-- the lowest bit, and the others
bit_and_halve : (a b : ℕ) → bit_and a b ≡ bit_and (a / 2) (b / 2) * 2 + min (a % 2) (b % 2)
bit_and_halve zero b = omega (arith, zero-bit_and (b / 2), zero-bit_and b)
bit_and_halve (suc a) b =
    bit_and-bitwise (suc a) b
    ∙ digits_halve (λ b. zero) min a b
    ∙ ap (λ rest. rest * 2 + min (suc a % 2) (b % 2)) (sym (bit_and-bitwise (suc a / 2) (b / 2)))

-- by halving
bit_and_same : (fuel a : ℕ) → a ≤ fuel → bit_and a a ≡ a
bit_and_same zero zero h = zero-bit_and 0
bit_and_same zero (suc a) h = absurd (omega arith)
bit_and_same (suc fuel) zero h = zero-bit_and 0
bit_and_same (suc fuel) (suc a) h =
    omega (arith, bit_and_halve (suc a) (suc a), bit_and_same fuel (suc a / 2) (omega arith))

-- a number shares no bit with its complement
bit_and_complement : (w m : ℕ) → m < 2 ^ w → bit_and m (2 ^ w - 1 - m) ≡ 0
bit_and_complement zero zero h = zero-bit_and (2 ^ 0 - 1 - 0)
bit_and_complement zero (suc m) h = absurd (omega arith)
bit_and_complement (suc w) m h =
    let double : 2 ^ suc w ≡ 2 ^ w * 2 = pow-suc 2 w in
    let half : (2 ^ suc w - 1 - m) / 2 ≡ 2 ^ w - 1 - m / 2 = omega arith in
    let smaller : bit_and (m / 2) (2 ^ w - 1 - m / 2) ≡ 0 =
      bit_and_complement w (m / 2) (omega arith) in
    bit_and_halve m (2 ^ suc w - 1 - m)
    ∙ ap (λ x. bit_and (m / 2) x * 2 + min (m % 2) ((2 ^ suc w - 1 - m) % 2)) half
    ∙ omega arith

-- the lowest bit in a word of `w` bits
neg_and : ℕ → ℕ → ℕ
neg_and w n = bit_and n (2 ^ w - n)

neg_and-odd : (w m : ℕ) → m < 2 ^ w → neg_and (suc w) (m * 2 + 1) ≡ 1
unfolding neg_and
neg_and-odd w m h =
    let double : 2 ^ suc w ≡ 2 ^ w * 2 = pow-suc 2 w in
    let n : ℕ = m * 2 + 1 in
    let left : n / 2 ≡ m = omega arith in
    let right : (2 ^ suc w - n) / 2 ≡ 2 ^ w - 1 - m = omega arith in
    bit_and_halve n (2 ^ suc w - n)
    ∙ ap (λ x. bit_and x ((2 ^ suc w - n) / 2) * 2 + min (n % 2) ((2 ^ suc w - n) % 2)) left
    ∙ ap (λ x. bit_and m x * 2 + min (n % 2) ((2 ^ suc w - n) % 2)) right
    ∙ omega (arith, bit_and_complement w m h)

neg_and-even : (w m : ℕ) → m < 2 ^ w → neg_and (suc w) (m * 2) ≡ neg_and w m * 2
unfolding neg_and
neg_and-even w m h =
    let double : 2 ^ suc w ≡ 2 ^ w * 2 = pow-suc 2 w in
    let n : ℕ = m * 2 in
    let left : n / 2 ≡ m = omega arith in
    let right : (2 ^ suc w - n) / 2 ≡ 2 ^ w - m = omega arith in
    bit_and_halve n (2 ^ suc w - n)
    ∙ ap (λ x. bit_and x ((2 ^ suc w - n) / 2) * 2 + min (n % 2) ((2 ^ suc w - n) % 2)) left
    ∙ ap (λ x. bit_and m x * 2 + min (n % 2) ((2 ^ suc w - n) % 2)) right
    ∙ omega arith

below-odd : (m : ℕ) → below (m * 2 + 1) ≡ m * 2
unfolding below
below-odd m =
    let left : (m * 2 + 1) / 2 ≡ m = omega arith in
    let right : (m * 2) / 2 ≡ m = omega arith in
    ap (λ x. bit_and (m * 2 + 1) x) (omega arith)
    ∙ bit_and_halve (m * 2 + 1) (m * 2)
    ∙ ap (λ x. bit_and x ((m * 2) / 2) * 2 + min ((m * 2 + 1) % 2) ((m * 2) % 2)) left
    ∙ ap (λ x. bit_and m x * 2 + min ((m * 2 + 1) % 2) ((m * 2) % 2)) right
    ∙ omega (arith, bit_and_same m m (omega arith))

below-even : (m : ℕ) → 0 < m → below (m * 2) ≡ below m * 2
unfolding below
below-even m pos =
    let left : (m * 2) / 2 ≡ m = omega arith in
    let right : (m * 2 - 1) / 2 ≡ m - 1 = omega arith in
    bit_and_halve (m * 2) (m * 2 - 1)
    ∙ ap (λ x. bit_and x ((m * 2 - 1) / 2) * 2 + min ((m * 2) % 2) ((m * 2 - 1) % 2)) left
    ∙ ap (λ x. bit_and m x * 2 + min ((m * 2) % 2) ((m * 2 - 1) % 2)) right
    ∙ omega arith

pub pow_pos : (t : ℕ) → 0 < 2 ^ t
pow_pos zero = omega arith
pow_pos (suc t) = omega (arith, pow_pos t, pow-suc 2 t)

halves : (n : ℕ) → (n ≡ (n / 2) * 2) ⊎ (n ≡ (n / 2) * 2 + 1)
halves n = elim (Bool-cases (n % 2 == 0)) [
  | inl even ↦ inl (ground arith)
  | inr odd ↦ inr (ground arith)
]

below-zero : below 0 ≡ 0
unfolding below
below-zero = refl

-- a number is its lowest bit and the rest
below-neg_and : (w n : ℕ) → 0 < n → n < 2 ^ w → below n + neg_and w n ≡ n
below-neg_and zero n pos h = absurd (omega arith)
below-neg_and (suc w) n pos h =
    let double : 2 ^ suc w ≡ 2 ^ w * 2 = pow-suc 2 w in
    elim (halves n) [
      | inl e ↦
          let b = ap below e ∙ below-even (n / 2) (omega arith) in
          let l = ap (neg_and (suc w)) e ∙ neg_and-even w (n / 2) (omega arith) in
          omega (arith, below-neg_and w (n / 2) (omega arith) (omega arith))
      | inr e ↦
          let b = ap below e ∙ below-odd (n / 2) in
          let l = ap (neg_and (suc w)) e ∙ neg_and-odd w (n / 2) (omega arith) in omega arith
    ]

-- the lowest bit leads from a number into the ranges that hold it, and past those that do not
neg_and-ranges :
    (w k i : ℕ)
    → 0 < k
    → k < i
    → i < 2 ^ w
    → (below i < k → k + neg_and w k ≤ i)
      × (k ≤ below i → k + neg_and w k ≤ i → k + neg_and w k ≤ below i)
neg_and-ranges zero k i pos lt h = absurd (omega arith)
neg_and-ranges (suc w) k i pos lt h =
    let double : 2 ^ suc w ≡ 2 ^ w * 2 = pow-suc 2 w in
    elim (halves k) [
      | inl e ↦
          let l = ap (neg_and (suc w)) e ∙ neg_and-even w (k / 2) (omega arith) in
          elim (halves i) [
            | inl f ↦
                let b = ap below f ∙ below-even (i / 2) (omega arith) in
                let (up, past) =
                  neg_and-ranges w (k / 2) (i / 2) (omega arith) (omega arith) (omega arith) in
                (
                  (λ in_range. omega (arith, up (omega arith))),
                  (λ before fits. omega (arith, past (omega arith) (omega arith))),
                )
            | inr f ↦
                let b = ap below f ∙ below-odd (i / 2) in
                ((λ in_range. absurd (omega arith)), (λ before fits. omega arith))
          ]
      | inr e ↦
          let l = ap (neg_and (suc w)) e ∙ neg_and-odd w (k / 2) (omega arith) in
          elim (halves i) [
            | inl f ↦
                let b = ap below f ∙ below-even (i / 2) (omega arith) in
                ((λ in_range. omega arith), (λ before fits. omega arith))
            | inr f ↦
                let b = ap below f ∙ below-odd (i / 2) in
                ((λ in_range. absurd (omega arith)), (λ before fits. omega arith))
          ]
    ]

low_bit-neg_and : (n : ℕ) → 0 < n → n < usize_mod → low_bit n ≡ neg_and 64 n
unfolding low_bit neg_and
low_bit-neg_and n pos h = ap (bit_and n) (omega arith)

pub below-low_bit : (n : ℕ) → 0 < n → n < usize_mod → below n + low_bit n ≡ n
below-low_bit n pos h = omega (arith, low_bit-neg_and n pos h, below-neg_and 64 n pos (omega arith))

pub below_lt : (w n : ℕ) → 0 < n → n < 2 ^ w → below n < n
below_lt zero n pos h = absurd (omega arith)
below_lt (suc w) n pos h =
    let double : 2 ^ suc w ≡ 2 ^ w * 2 = pow-suc 2 w in
    elim (halves n) [
      | inl e ↦
          let b = ap below e ∙ below-even (n / 2) (omega arith) in
          omega (arith, below_lt w (n / 2) (omega arith) (omega arith))
      | inr e ↦ let b = ap below e ∙ below-odd (n / 2) in omega arith
    ]

pub low_bit-ranges :
    (k i : ℕ)
    → 0 < k
    → k < i
    → i < usize_mod
    → (below i < k → k + low_bit k ≤ i)
      × (k ≤ below i → k + low_bit k ≤ i → k + low_bit k ≤ below i)
low_bit-ranges k i pos lt h =
    let same = low_bit-neg_and k pos (omega arith) in
    let (up, past) = neg_and-ranges 64 k i pos lt (omega arith) in
    (
      (λ in_range. omega (arith, up in_range)),
      (λ before fits. omega (arith, past before (omega arith))),
    )

-- a power of two above a multiple of twice itself
pub below-power : (t q : ℕ) → below (q * 2 * 2 ^ t + 2 ^ t) ≡ q * 2 * 2 ^ t
below-power zero q = ap below (omega arith) ∙ below-odd q ∙ omega arith
below-power (suc t) q =
    let double : 2 ^ suc t ≡ 2 ^ t * 2 = pow-suc 2 t in
    let n : ℕ = q * 2 * 2 ^ t + 2 ^ t in
    let whole : q * 2 * 2 ^ suc t + 2 ^ suc t ≡ n * 2 =
      ap (λ x. q * 2 * x + x) double ∙ omega arith in
    ap below whole
    ∙ below-even n (omega (arith, pow_pos t))
    ∙ ap (λ x. x * 2) (below-power t q)
    ∙ omega arith
    ∙ ap (λ x. q * 2 * x) (sym double)
