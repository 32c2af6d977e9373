-- ===== src/Ibf/Decode.antt =====
-- What the cells of a difference of core/crdt/src/ibf.rs hold, and what `decode` finds in them.
use Prim.Native.Nat.{bit_xor}
use mathlib.Core.List.{Permᴰ}
use mathlib.Core.Path.{ap₂}
use nodalmerge.Base.{
  ℕ, zero, suc, ◌<◌, ◌≡◌, sym, ap, ◌∙◌, fun_ext, true, List, ◌++◌, arith, inl, inr, ◌==◌, ==_iff,
  Bool-cases,
}
use nodalmerge.Base.Xor.{xor_comm, xor_cancel, xor_rotate, xor_last}
use nodalmerge.Ibf.{
  IbfCell, zero_cell, Ibf, IbfHash, add_cell, subtract_cell, subtract, is_zero_cell, all_zero,
  from_ids,
}
use nodalmerge.Ibf.Cells.{
  IsCell, negate, total, total-IsCell, from_ids-total, total-append, total-perm,
}

-- what both sides add to a cell cancels in the difference
subtract_cell-shared :
    (s m t : IbfCell)
    → IsCell s
    → IsCell m
    → IsCell t
    → subtract_cell (add_cell s m) (add_cell s t) ≡ subtract_cell m t
unfolding subtract_cell add_cell
subtract_cell-shared s m t hs hm ht = ground (
  arith,
  xor_comm s.id_sum m.id_sum,
  xor_cancel m.id_sum t.id_sum s.id_sum,
  xor_comm s.hash_sum m.hash_sum,
  xor_cancel m.hash_sum t.hash_sum s.hash_sum,
)

module _ (hash : IbfHash) where
  total-shared :
      (shared mine theirs : List ℕ) (j : ℕ)
      → subtract_cell (total hash (shared ++ mine) j) (total hash (shared ++ theirs) j)
        ≡ subtract_cell (total hash mine j) (total hash theirs j)
  total-shared shared mine theirs j =
      ap₂ subtract_cell (total-append hash shared mine j) (total-append hash shared theirs j)
      ∙ subtract_cell-shared (total hash shared j) (total hash mine j) (total hash theirs j)
          (total-IsCell hash shared j) (total-IsCell hash mine j) (total-IsCell hash theirs j)

  -- The difference of the filters of two sets of ids is that of the ids which they do not share,
  -- whatever the order in which the ids were inserted.
  pub subtract-from_ids :
      (shared mine theirs : List ℕ) {xs ys : List ℕ}
      → Permᴰ xs (shared ++ mine)
      → Permᴰ ys (shared ++ theirs)
      → subtract (from_ids hash xs) (from_ids hash ys)
        ≡ subtract (from_ids hash mine) (from_ids hash theirs)
  unfolding subtract
  subtract-from_ids shared mine theirs {xs} {ys} p q = fun_ext (λ j.
      ap₂ subtract_cell (from_ids-total hash xs j ∙ total-perm hash p j)
        (from_ids-total hash ys j ∙ total-perm hash q j)
      ∙ total-shared shared mine theirs j
      ∙ sym (ap₂ subtract_cell (from_ids-total hash mine j) (from_ids-total hash theirs j)))

-- a cell and its part of the ids found so far
pub balance_mine :
    (c m t s : IbfCell)
    → IsCell m
    → IsCell t
    → IsCell s
    → add_cell (add_cell c (negate s)) (subtract_cell (add_cell m s) t)
      ≡ add_cell c (subtract_cell m t)
unfolding subtract_cell add_cell negate
balance_mine c m t s hm ht hs = ground (
  arith,
  xor_rotate m.id_sum t.id_sum s.id_sum,
  xor_cancel c.id_sum (bit_xor m.id_sum t.id_sum) s.id_sum,
  xor_rotate m.hash_sum t.hash_sum s.hash_sum,
  xor_cancel c.hash_sum (bit_xor m.hash_sum t.hash_sum) s.hash_sum,
)

pub balance_theirs :
    (c m t s : IbfCell)
    → IsCell m
    → IsCell t
    → IsCell s
    → add_cell (add_cell c s) (subtract_cell m (add_cell t s)) ≡ add_cell c (subtract_cell m t)
unfolding subtract_cell add_cell
balance_theirs c m t s hm ht hs = ground (
  arith,
  xor_last m.id_sum t.id_sum s.id_sum,
  xor_cancel c.id_sum (bit_xor m.id_sum t.id_sum) s.id_sum,
  xor_last m.hash_sum t.hash_sum s.hash_sum,
  xor_cancel c.hash_sum (bit_xor m.hash_sum t.hash_sum) s.hash_sum,
)

pub all_zero-cell :
    (n : ℕ) (cells : Ibf) (j : ℕ) → all_zero n cells ≡ true → j < n → cells j ≡ zero_cell
unfolding all_zero is_zero_cell
all_zero-cell zero cells j h lt = absurd (omega arith)
all_zero-cell (suc n) cells j h lt = elim (Bool-cases (n == j)) [
  | inl here ↦ let e : n ≡ j = (==_iff n j).0 here in ap cells (sym e) ∙ ground arith
  | inr below ↦ all_zero-cell n cells j (ground arith) (ground arith)
]
