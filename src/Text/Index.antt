-- ===== src/Text/Index.antt =====
-- `CountedPositionIndex` of core/crdt/src/text.rs: a Fenwick tree over the weights of the chunks. A
-- vector is its length and a function of positions. A `usize` has 64 bits. The loops that walk over
-- the tree count rounds, one for each position; the loop over the bits is recursion on the exponent.
pub mod Bits
pub mod Sums
pub mod Update
pub mod Rebuild
pub mod Select
use Prim.Native.Nat.{bit_and}
use nodalmerge.Base.{
  ℕ, zero, suc, ◌+◌, ◌-◌, ◌%◌, ◌^◌, min, Option, none, some, ltb, leb, ◌==◌, if◌then◌else◌,
}

abbrev pub u32_max : ℕ
u32_max = 4294967295

abbrev pub usize_mod : ℕ
usize_mod = 18446744073709551616

pub record CountedPositionIndex : Type 0 where
  pub count : ℕ
  pub weights : ℕ → ℕ
  pub fenwick_len : ℕ
  pub fenwick : ℕ → ℕ

-- `CountedPositionIndex::default()`
abbrev pub empty_index : CountedPositionIndex
empty_index = record { count = 0; weights = λ i. 0; fenwick_len = 0; fenwick = λ i. 0 }

unfoldable pub to_u32 : ℕ → ℕ
to_u32 value = min value u32_max

-- `idx & idx.wrapping_neg()`
unfoldable pub low_bit : ℕ → ℕ
low_bit idx = bit_and idx ((usize_mod - idx) % usize_mod)

-- `idx & (idx - 1)`
unfoldable pub below : ℕ → ℕ
below idx = bit_and idx (idx - 1)

-- `vector[idx] = value`
unfoldable pub set_at : ℕ → ℕ → (ℕ → ℕ) → ℕ → ℕ
set_at idx value vector i = if i == idx then value else vector i

-- the loop of `add_u32` and `sub_u32`, which differ in what they do to a cell
unfoldable pub walk_up : (ℕ → ℕ) → ℕ → ℕ → ℕ → (ℕ → ℕ) → ℕ → ℕ
walk_up change zero len idx1 fenwick = fenwick
walk_up change (suc rounds) len idx1 fenwick =
    let next =
      walk_up change rounds len (idx1 + low_bit idx1)
        (set_at idx1 (change (fenwick idx1)) fenwick) in
    if ltb idx1 len then next else fenwick

-- `saturating_add`
unfoldable pub add_u32 : ℕ → ℕ → CountedPositionIndex → CountedPositionIndex
add_u32 idx1 delta ix = record ix {
  fenwick = walk_up (λ cell. to_u32 (cell + delta)) ix.fenwick_len ix.fenwick_len idx1 ix.fenwick;
}

-- `saturating_sub`
unfoldable pub sub_u32 : ℕ → ℕ → CountedPositionIndex → CountedPositionIndex
sub_u32 idx1 delta ix = record ix {
  fenwick = walk_up (λ cell. cell - delta) ix.fenwick_len ix.fenwick_len idx1 ix.fenwick;
}

-- the loop of `prefix_sum`
unfoldable pub sum_loop : ℕ → ℕ → (ℕ → ℕ) → ℕ
sum_loop zero idx1 fenwick = 0
sum_loop (suc rounds) idx1 fenwick =
    let rest = sum_loop rounds (below idx1) fenwick in if idx1 == 0 then 0 else fenwick idx1 + rest

unfoldable pub prefix_sum : CountedPositionIndex → ℕ → ℕ
prefix_sum ix idx1 = sum_loop ix.fenwick_len (min idx1 (ix.fenwick_len - 1)) ix.fenwick

unfoldable pub total_len : CountedPositionIndex → ℕ
total_len ix = prefix_sum ix ix.count

-- the loop of `rebuild_fenwick` over the positions from `i` on
unfoldable pub add_weights : ℕ → ℕ → CountedPositionIndex → CountedPositionIndex
unfolding add_u32
add_weights zero i ix = ix
add_weights (suc n) i ix = add_weights n (suc i) (add_u32 (i + 1) (ix.weights i) ix)

unfoldable pub rebuild_fenwick : CountedPositionIndex → CountedPositionIndex
unfolding add_weights
rebuild_fenwick ix =
    add_weights ix.count 0 (record ix { fenwick_len = ix.count + 1; fenwick = λ i. 0 })

unfoldable pub rebuild_from_weights : ℕ → (ℕ → ℕ) → CountedPositionIndex → CountedPositionIndex
unfolding rebuild_fenwick
rebuild_from_weights count weights ix =
    rebuild_fenwick (record ix { count = count; weights = λ i. to_u32 (weights i) })

unfoldable pub update_weight : ℕ → ℕ → CountedPositionIndex → CountedPositionIndex
unfolding add_u32 sub_u32
update_weight idx new_weight ix =
    let new = to_u32 new_weight in
    let old = ix.weights idx in
    let written = record ix { weights = set_at idx new ix.weights } in
    if leb ix.count idx
    then ix
    else if old == new
    then ix
    else if ltb old new
    then add_u32 (idx + 1) (new - old) written
    else sub_u32 (idx + 1) (old - new) written

-- the exponent of the first power of two that reaches the length
unfoldable pub bit_exponent : ℕ → ℕ → ℕ → ℕ
bit_exponent zero t len = t
bit_exponent (suc rounds) t len =
    let next = bit_exponent rounds (suc t) len in if ltb (2 ^ t) len then next else t

-- the loop of `lower_bound` over the bits below `2 ^ t`
unfoldable pub descend : ℕ → CountedPositionIndex → ℕ → ℕ → ℕ → ℕ
descend zero ix target idx running = idx
descend (suc t) ix target idx running =
    let next = idx + 2 ^ t in
    let cand = running + ix.fenwick next in
    if ltb next ix.fenwick_len
    then if ltb cand target then descend t ix target next cand else descend t ix target idx running
    else descend t ix target idx running

unfoldable pub lower_bound : CountedPositionIndex → ℕ → Option ℕ
lower_bound ix target =
    if target == 0
    then none
    else if ix.count == 0
    then none
    else if ltb (prefix_sum ix ix.count) target
    then none
    else some (descend (suc (bit_exponent ix.fenwick_len 0 ix.fenwick_len)) ix target 0 0)

unfoldable pub select_offset : CountedPositionIndex → ℕ → Option (ℕ × ℕ)
unfolding total_len
select_offset ix offset =
    if leb (total_len ix) offset then none else elim (lower_bound ix (offset + 1)) [
      | none ↦ none
      | some entry ↦ some (entry, offset - prefix_sum ix entry)
    ]
