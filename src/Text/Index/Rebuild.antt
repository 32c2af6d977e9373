-- ===== src/Text/Index/Rebuild.antt =====
-- The Fenwick tree that core/crdt/src/text.rs builds from weights is in order.
use nodalmerge.Base.{
  ℕ, zero, suc, ◌+◌, ◌≤◌, ◌<◌, ◌≡◌, refl, sym, ap, subst, inl, inr, arith, ltb, ◌==◌, if◌then◌else◌,
  Bool-cases, fun_ext,
}
use nodalmerge.Text.Index.{
  CountedPositionIndex, u32_max, usize_mod, to_u32, below, set_at, add_u32, add_weights,
  rebuild_fenwick, rebuild_from_weights,
}
use nodalmerge.Text.Index.Bits.{below_lt}
use nodalmerge.Text.Index.Sums.{sum, IsFenwick}
use nodalmerge.Text.Index.Update.{changed-IsFenwick}

-- the weights before a position, and zero from there on
truncated : ℕ → (ℕ → ℕ) → ℕ → ℕ
truncated i weights j = if ltb j i then weights j else 0

sum-truncated-le : (i : ℕ) (weights : ℕ → ℕ) (n : ℕ) → sum (truncated i weights) n ≤ sum weights n
unfolding sum truncated
sum-truncated-le i weights zero = omega arith
sum-truncated-le i weights (suc n) = ground (arith, sum-truncated-le i weights n)

sum-truncated :
    (i : ℕ) (weights : ℕ → ℕ) (n : ℕ) → n ≤ i → sum (truncated i weights) n ≡ sum weights n
unfolding sum truncated
sum-truncated i weights zero h = refl
sum-truncated i weights (suc n) h = ground (arith, sum-truncated i weights n (omega arith))

sum-truncated_zero : (weights : ℕ → ℕ) (n : ℕ) → sum (truncated 0 weights) n ≡ 0
unfolding sum truncated
sum-truncated_zero weights zero = refl
sum-truncated_zero weights (suc n) = ground (arith, sum-truncated_zero weights n)

truncated-step :
    (i : ℕ) (weights : ℕ → ℕ)
    → set_at i (weights i) (truncated i weights) ≡ truncated (suc i) weights
unfolding truncated set_at
truncated-step i weights = fun_ext (λ j. elim (Bool-cases (j == i)) [
  | inl here ↦
      let e : j ≡ i = ground arith in let w : weights j ≡ weights i = ap weights e in ground arith
  | inr other ↦ ground arith
])

-- the tree over the first weights
abbrev IsPartial : ℕ → CountedPositionIndex → Type 0
IsPartial i ix = IsFenwick (record ix { weights = truncated i ix.weights })

add_weights-IsPartial :
    (n i : ℕ) (ix : CountedPositionIndex)
    → i + n ≡ ix.count
    → sum ix.weights ix.count ≤ u32_max
    → IsPartial i ix
    → IsPartial ix.count (add_weights n i ix)
unfolding add_weights add_u32
add_weights-IsPartial zero i ix e fits f = subst (λ j. IsPartial j ix) (omega arith) f
add_weights-IsPartial (suc n) i ix e fits f =
    let partial : CountedPositionIndex = record ix { weights = truncated i ix.weights } in
    let step = truncated-step i ix.weights in
    let old : truncated i ix.weights i ≡ 0 = unfold truncated in ground arith in
    let bound : sum (set_at i (ix.weights i) (truncated i ix.weights)) ix.count ≤ u32_max =
      subst (λ w. sum w ix.count ≤ u32_max) (sym step)
        (omega (arith, sum-truncated-le (suc i) ix.weights ix.count)) in
    let next =
      changed-IsFenwick partial i (ix.weights i) (λ cell. to_u32 (cell + ix.weights i)) f
        (omega arith) bound (λ cell low high. unfold to_u32 in omega arith) in
    add_weights-IsPartial n (suc i) (add_u32 (i + 1) (ix.weights i) ix) (omega arith) fits (
      subst (λ w. IsFenwick (record (add_u32 (i + 1) (ix.weights i) ix) { weights = w })) step next)

add_weights-count : (n i : ℕ) (ix : CountedPositionIndex) → (add_weights n i ix).count ≡ ix.count
unfolding add_weights add_u32
add_weights-count zero i ix = refl
add_weights-count (suc n) i ix = add_weights-count n (suc i) (add_u32 (i + 1) (ix.weights i) ix)

add_weights-weights :
    (n i : ℕ) (ix : CountedPositionIndex) → (add_weights n i ix).weights ≡ ix.weights
unfolding add_weights add_u32
add_weights-weights zero i ix = refl
add_weights-weights (suc n) i ix = add_weights-weights n (suc i) (add_u32 (i + 1) (ix.weights i) ix)

-- a tree over all of its weights
whole-IsFenwick : (ix : CountedPositionIndex) → IsPartial ix.count ix → IsFenwick ix
whole-IsFenwick ix f = record {
  has_length = f.has_length;
  holds_ranges = λ i pos h.
      let smaller = below_lt 64 i pos (omega (arith, f.length_fits)) in
      omega (
        arith,
        f.holds_ranges i pos h,
        sum-truncated ix.count ix.weights i h,
        sum-truncated ix.count ix.weights (below i) (omega arith),
      );
  total_fits =
      omega (arith, f.total_fits, sum-truncated ix.count ix.weights ix.count (omega arith));
  length_fits = f.length_fits;
}

-- A tree that is rebuilt from weights is in order, and has them for weights, if they fit 32 bits together.
pub rebuild_from_weights-IsFenwick :
    (count : ℕ) (weights : ℕ → ℕ) (ix : CountedPositionIndex)
    → sum (λ i. to_u32 (weights i)) count ≤ u32_max
    → count + 1 < usize_mod
    → IsFenwick (rebuild_from_weights count weights ix)
      × ((rebuild_from_weights count weights ix).weights ≡ (λ i. to_u32 (weights i)))
unfolding rebuild_from_weights rebuild_fenwick
rebuild_from_weights-IsFenwick count weights ix fits short =
    let start : CountedPositionIndex = record {
      count = count;
      weights = λ i. to_u32 (weights i);
      fenwick_len = count + 1;
      fenwick = λ i. 0;
    } in
    let built : CountedPositionIndex = add_weights count 0 start in
    let empty : IsPartial 0 start = record {
      has_length = refl;
      holds_ranges = λ i pos h.
          omega
            (arith, sum-truncated_zero start.weights i, sum-truncated_zero start.weights (below i));
      total_fits = omega (arith, sum-truncated_zero start.weights count);
      length_fits = short;
    } in
    let partial = add_weights-IsPartial count 0 start (omega arith) fits empty in
    (
      whole-IsFenwick built
          (subst (λ c. IsPartial c built) (sym (add_weights-count count 0 start)) partial),
      add_weights-weights count 0 start,
    )
