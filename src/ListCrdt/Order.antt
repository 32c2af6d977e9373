-- ===== src/ListCrdt/Order.antt =====
-- The order of the entries of core/crdt/src/list.rs, and the ordered set that the list cache of
-- core/crdt/src/graph.rs keeps.
use Prim.Native.Nat.{Ordering}
use Prim.Native.Nat.Ordering.{lt, eq, gt}
use nodalmerge.Base.{
  ◌≡◌, ◌≢◌, refl, List, [], ◌∷◌, arith, All, bytes_cmp_refl, eq_of_bytes_cmp, bytes_cmp-lt_of_gt,
  bytes_cmp-gt_of_lt, bytes_cmp_trans,
}
use nodalmerge.Base.Sort.{IsTotal, insert, insert_new, remove}
use nodalmerge.ListCrdt.{Entry, entry_cmp}

entry_cmp_refl : (a : Entry) → entry_cmp a a ≡ eq
unfolding entry_cmp
entry_cmp_refl a = ground (arith, bytes_cmp_refl a.position)

pub eq_of_entry_cmp : (a b : Entry) → entry_cmp a b ≡ eq → a ≡ b
unfolding entry_cmp
eq_of_entry_cmp a b h = ground (arith, eq_of_bytes_cmp a.position b.position)

entry_cmp-lt_of_gt : (a b : Entry) → entry_cmp a b ≡ gt → entry_cmp b a ≡ lt
unfolding entry_cmp
entry_cmp-lt_of_gt a b h = ground (
  arith,
  eq_of_bytes_cmp a.position b.position,
  bytes_cmp-lt_of_gt a.position b.position,
  bytes_cmp_refl a.position,
)

entry_cmp-gt_of_lt : (a b : Entry) → entry_cmp a b ≡ lt → entry_cmp b a ≡ gt
unfolding entry_cmp
entry_cmp-gt_of_lt a b h = ground (
  arith,
  eq_of_bytes_cmp a.position b.position,
  bytes_cmp-gt_of_lt a.position b.position,
  bytes_cmp_refl a.position,
)

entry_cmp_trans : (a b c : Entry) → entry_cmp a b ≡ lt → entry_cmp b c ≡ lt → entry_cmp a c ≡ lt
unfolding entry_cmp
entry_cmp_trans a b c h k = ground (
  arith,
  eq_of_bytes_cmp a.position b.position,
  eq_of_bytes_cmp b.position c.position,
  bytes_cmp_trans a.position b.position c.position,
  bytes_cmp_refl a.position,
)

pub entry_cmp-IsTotal : IsTotal entry_cmp
entry_cmp-IsTotal = record {
  cmp_refl = entry_cmp_refl;
  eq_of_cmp = eq_of_entry_cmp;
  lt_of_gt = entry_cmp-lt_of_gt;
  gt_of_lt = entry_cmp-gt_of_lt;
  lt_trans = entry_cmp_trans;
}

module _ {ℓ} {A : Type ℓ} (cmp : A → A → Ordering) (total : IsTotal cmp) (a : A) where
  open total use {cmp_refl}

  -- what was inserted last can be taken out again
  pub remove-insert : (l : List A) → remove cmp a (insert cmp a l) ≡ l
  unfolding remove insert
  remove-insert [] = ground (arith, cmp_refl a)
  remove-insert (b ∷ l) = ground (arith, cmp_refl a, remove-insert l)

  -- an element that the set does not hold is inserted as in a list
  pub insert_new-insert :
      (l : List A) → All (λ b. cmp a b ≢ eq) l → insert_new cmp a l ≡ insert cmp a l
  unfolding insert_new insert
  insert_new-insert [] h = refl
  insert_new-insert (b ∷ l) h = ground (arith, insert_new-insert l h.1, h.0)
