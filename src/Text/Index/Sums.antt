-- ===== src/Text/Index/Sums.antt =====
-- What the Fenwick tree of core/crdt/src/text.rs should hold, and which cells `add_u32` and `sub_u32`
-- change.
use nodalmerge.Base.{
  ℕ, zero, suc, ◌+◌, ◌≤◌, ◌<◌, ◌≡◌, refl, ap, ◌&&◌, inl, inr, arith, ltb, leb, ◌==◌, if◌then◌else◌,
  Bool-cases,
}
use nodalmerge.Text.Index.{
  CountedPositionIndex, u32_max, usize_mod, low_bit, below, set_at, walk_up,
}
use nodalmerge.Text.Index.Bits.{below-low_bit, below_lt, low_bit-ranges}

-- the first `n` weights together
unfoldable pub sum : (ℕ → ℕ) → ℕ → ℕ
sum weights zero = 0
sum weights (suc n) = sum weights n + weights n

-- each cell holds the weights of the range that ends at it
pub record IsFenwick (ix : CountedPositionIndex) : Type 0 where
  pub has_length : ix.fenwick_len ≡ ix.count + 1
  pub holds_ranges :
      (i : ℕ) → 0 < i → i ≤ ix.count → ix.fenwick i + sum ix.weights (below i) ≡ sum ix.weights i
  pub total_fits : sum ix.weights ix.count ≤ u32_max
  pub length_fits : ix.count + 1 < usize_mod

pub sum_mono : (weights : ℕ → ℕ) (a b : ℕ) → a ≤ b → sum weights a ≤ sum weights b
unfolding sum
sum_mono weights a zero h = let e : a ≡ 0 = omega arith in rw e (omega arith)
sum_mono weights a (suc b) h = elim (Bool-cases (a == suc b)) [
  | inl same ↦ let e : a ≡ suc b = ground arith in rw e (omega arith)
  | inr smaller ↦ omega (arith, sum_mono weights a b (ground arith))
]

pub sum_between :
    (weights : ℕ → ℕ) (a k b : ℕ) → a ≤ k → k < b → sum weights a + weights k ≤ sum weights b
unfolding sum
sum_between weights a k b h lt =
    omega (arith, sum_mono weights a k h, sum_mono weights (suc k) b (omega arith))

pub sum-set_at_above :
    (weights : ℕ → ℕ) (k value n : ℕ) → n ≤ k → sum (set_at k value weights) n ≡ sum weights n
unfolding sum set_at
sum-set_at_above weights k value zero h = refl
sum-set_at_above weights k value (suc n) h =
    ground (arith, sum-set_at_above weights k value n (omega arith))

pub sum-set_at :
    (weights : ℕ → ℕ) (k value n : ℕ)
    → k < n
    → sum (set_at k value weights) n + weights k ≡ sum weights n + value
unfolding sum set_at
sum-set_at weights k value zero h = absurd (omega arith)
sum-set_at weights k value (suc n) h = elim (Bool-cases (n == k)) [
  | inl here ↦
      let e : n ≡ k = ground arith in
      let w : weights n ≡ weights k = ap weights e in
      ground (arith, sum-set_at_above weights k value n (omega arith))
  | inr later ↦ ground (arith, sum-set_at weights k value n (ground arith))
]

-- the walk changes the cells whose range holds the position, each once
pub walk_up_lem :
    (change : ℕ → ℕ) (rounds len k : ℕ) (fenwick : ℕ → ℕ) (i : ℕ)
    → 0 < k
    → len ≤ rounds + k
    → i < len
    → len < usize_mod
    → walk_up change rounds len k fenwick i
      ≡ (if ltb (below i) k && leb k i then change (fenwick i) else fenwick i)
unfolding walk_up set_at
walk_up_lem change zero len k fenwick i pos enough within fits = ground arith
walk_up_lem change (suc rounds) len k fenwick i pos enough within fits =
    elim (Bool-cases (ltb k len)) [
      | inr past ↦ ground arith
      | inl inside ↦
          let split = below-low_bit k pos (ground arith) in
          let smaller = below_lt 64 k pos (ground arith) in
          let rest =
            walk_up_lem change rounds len (k + low_bit k) (set_at k (change (fenwick k)) fenwick) i
              (omega arith) (omega arith) within fits in
          elim (Bool-cases (i == k)) [
            | inl here ↦
                let e : i ≡ k = ground arith in
                let b : below i ≡ below k = ap below e in
                let f : change (fenwick i) ≡ change (fenwick k) = ap (λ x. change (fenwick x)) e in
                ground arith
            | inr other ↦ elim (Bool-cases (ltb k i)) [
              | inl above ↦
                  let ranges = low_bit-ranges k i pos (ground arith) (omega arith) in
                  ground (arith, ranges.0, ranges.1)
              | inr under ↦ ground arith
            ]
          ]
    ]
