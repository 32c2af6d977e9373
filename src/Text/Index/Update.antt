-- ===== src/Text/Index/Update.antt =====
-- The Fenwick tree of core/crdt/src/text.rs sums its weights, whatever is updated.
use nodalmerge.Base.{
  ℕ, zero, suc, ◌+◌, ◌-◌, ◌≤◌, ◌<◌, min, ◌≡◌, refl, ap, ◌∙◌, false, inl, inr, arith, ltb, leb, ◌==◌,
  if◌then◌else◌, Bool-cases,
}
use nodalmerge.Text.Index.{
  CountedPositionIndex, u32_max, to_u32, below, set_at, walk_up, add_u32, sub_u32, sum_loop,
  prefix_sum, update_weight,
}
use nodalmerge.Text.Index.Bits.{below_lt}
use nodalmerge.Text.Index.Sums.{
  sum, IsFenwick, sum_mono, sum_between, sum-set_at_above, sum-set_at, walk_up_lem,
}

sum_loop_lem :
    (ix : CountedPositionIndex) (rounds n : ℕ)
    → IsFenwick ix
    → n ≤ ix.count
    → n ≤ rounds
    → sum_loop rounds n ix.fenwick ≡ sum ix.weights n
unfolding sum_loop
sum_loop_lem ix zero n f h enough = let e : n ≡ 0 = omega arith in rw e (unfold sum in refl)
sum_loop_lem ix (suc rounds) n f h enough = elim (Bool-cases (n == 0)) [
  | inl empty ↦ let e : n ≡ 0 = ground arith in rw e (unfold sum in refl)
  | inr more ↦
      let pos : 0 < n = ground arith in
      let smaller = below_lt 64 n pos (omega (arith, f.length_fits)) in
      let rest = sum_loop_lem ix rounds (below n) f (omega arith) (omega arith) in
      rw more (omega (arith, f.holds_ranges n pos h))
]

-- The prefix sum of a tree that is in order is the sum of the weights before the position, and the
-- sum of all past the end.
pub prefix_sum-sum :
    (ix : CountedPositionIndex) (n : ℕ)
    → IsFenwick ix
    → prefix_sum ix n ≡ sum ix.weights (min n ix.count)
unfolding prefix_sum
prefix_sum-sum ix n f =
    ap (λ m. sum_loop ix.fenwick_len m ix.fenwick) (omega (arith, f.has_length))
    ∙ sum_loop_lem ix ix.fenwick_len (min n ix.count) f (omega arith) (omega (arith, f.has_length))

-- cells that a change of one weight leaves in order
pub changed-IsFenwick :
    (ix : CountedPositionIndex) (idx value : ℕ) (change : ℕ → ℕ)
    → IsFenwick ix
    → idx < ix.count
    → sum (set_at idx value ix.weights) ix.count ≤ u32_max
    → ((cell : ℕ)
        → ix.weights idx ≤ cell
        → cell + value ≤ u32_max + ix.weights idx
        → change cell + ix.weights idx ≡ cell + value)
    → IsFenwick (record ix {
      weights = set_at idx value ix.weights;
      fenwick = walk_up change ix.fenwick_len ix.fenwick_len (idx + 1) ix.fenwick;
    })
changed-IsFenwick ix idx value change f within fits law = record {
  has_length = f.has_length;
  holds_ranges = λ i pos h.
      let cell =
        walk_up_lem change ix.fenwick_len ix.fenwick_len (idx + 1) ix.fenwick i (omega arith)
          (omega arith) (omega (arith, f.has_length))
          (omega (arith, f.has_length, f.length_fits)) in
      let range = f.holds_ranges i pos h in
      elim (Bool-cases (ltb idx i)) [
        | inr above ↦
            let low = below_lt 64 i pos (omega (arith, f.length_fits)) in
            let a = sum-set_at_above ix.weights idx value i (ground arith) in
            let b = sum-set_at_above ix.weights idx value (below i) (ground arith) in ground arith
        | inl reaches ↦
            let a = sum-set_at ix.weights idx value i (ground arith) in
            elim (Bool-cases (leb (below i) idx)) [
              | inl holds ↦
                  let b = sum-set_at_above ix.weights idx value (below i) (ground arith) in
                  let part = sum_between ix.weights (below i) idx i (ground arith) (ground arith) in
                  let bound = sum_mono (set_at idx value ix.weights) i ix.count h in
                  let new = law (ix.fenwick i) (omega arith) (omega arith) in ground arith
              | inr past ↦
                  let b = sum-set_at ix.weights idx value (below i) (ground arith) in ground arith
            ]
      ];
  total_fits = fits;
  length_fits = f.length_fits;
}

-- Updating the weight of a position keeps the tree in order, and makes the weight of that position
-- the new one, if the weights still fit 32 bits together.
pub update_weight-IsFenwick :
    (ix : CountedPositionIndex) (idx new_weight : ℕ)
    → IsFenwick ix
    → idx < ix.count
    → sum (set_at idx (to_u32 new_weight) ix.weights) ix.count ≤ u32_max
    → IsFenwick (update_weight idx new_weight ix)
      × ((j : ℕ)
          → (update_weight idx new_weight ix).weights j
            ≡ (if j == idx then to_u32 new_weight else ix.weights j))
unfolding update_weight add_u32 sub_u32 set_at
update_weight-IsFenwick ix idx new_weight f within fits =
    let inside : leb ix.count idx ≡ false = ground arith in
    let old : ℕ = ix.weights idx in
    let new : ℕ = to_u32 new_weight in
    elim (Bool-cases (old == new)) [
      | inl same ↦
          rw (inside, same)
            (
              f,
              (λ j. elim (Bool-cases (j == idx)) [
                | inl here ↦
                    let e : j ≡ idx = ground arith in
                    let w : ix.weights j ≡ ix.weights idx = ap ix.weights e in ground arith
                | inr other ↦ ground arith
              ]),
            )
      | inr differs ↦ elim (Bool-cases (ltb old new)) [
        | inl grows ↦
            rw (inside, differs, grows)
              (
                changed-IsFenwick ix idx new (λ cell. to_u32 (cell + (new - old))) f within fits
                    (λ cell low high. unfold to_u32 in ground arith),
                (λ j. refl),
              )
        | inr shrinks ↦
            rw (inside, differs, shrinks)
              (
                changed-IsFenwick ix idx new (λ cell. cell - (old - new)) f within fits
                    (λ cell low high. ground arith),
                (λ j. refl),
              )
      ]
    ]
