-- ===== src/Ibf/Cells.antt =====
-- The cells of core/crdt/src/ibf.rs under addition, and what a set of ids puts into each.
use mathlib.Core.List.{Permᴰ}
use mathlib.Core.Path.{ap₂}
use nodalmerge.Base.{
  ℕ, ◌-◌, ◌%◌, ◌<◌, ◌≡◌, refl, sym, ap, ◌∙◌, List, [], ◌∷◌, ◌++◌, arith, ◌==◌, if◌then◌else◌,
}
use nodalmerge.Base.Xor.{xor_comm, xor_assoc, xor-zero, xor_self}
use nodalmerge.Ibf.{
  i32_mod, IbfCell, zero_cell, Ibf, IbfHash, add_cell, bump, touch, new_ibf, subtract_cell,
  cell_indices, element, insert, insert_all, from_ids,
}

-- a count is an `i32`
abbrev pub IsCell : IbfCell → Type 0
IsCell c = c.count < i32_mod

-- the cell that undoes another
unfoldable pub negate : IbfCell → IbfCell
negate c = record {
  count = (i32_mod - c.count) % i32_mod;
  id_sum = c.id_sum;
  hash_sum = c.hash_sum;
}

pub add_cell-zero : (c : IbfCell) → IsCell c → add_cell c zero_cell ≡ c
unfolding add_cell
add_cell-zero c h = ground (arith, xor-zero c.id_sum, xor-zero c.hash_sum)

pub add_cell-IsCell : (c d : IbfCell) → IsCell (add_cell c d)
unfolding add_cell
add_cell-IsCell c d = omega arith

pub add_cell_assoc : (c d e : IbfCell) → add_cell (add_cell c d) e ≡ add_cell c (add_cell d e)
unfolding add_cell
add_cell_assoc c d e =
    ground (arith, xor_assoc c.id_sum d.id_sum e.id_sum, xor_assoc c.hash_sum d.hash_sum e.hash_sum)

pub add_cell_comm : (c d : IbfCell) → add_cell c d ≡ add_cell d c
unfolding add_cell
add_cell_comm c d = ground (arith, xor_comm c.id_sum d.id_sum, xor_comm c.hash_sum d.hash_sum)

pub negate-add_cell :
    (c d : IbfCell) → IsCell c → IsCell d → negate (add_cell c d) ≡ add_cell (negate c) (negate d)
unfolding add_cell negate
negate-add_cell c d h k = ground arith

pub subtract_cell-negate : (c d : IbfCell) → IsCell d → subtract_cell c d ≡ add_cell c (negate d)
unfolding add_cell negate subtract_cell
subtract_cell-negate c d h = ground arith

-- how often a position stands among the indices, as a multiple of a cell
unfoldable pub times : IbfCell → List ℕ → ℕ → IbfCell
times d [] j = zero_cell
times d (i ∷ indices) j = if i == j then add_cell d (times d indices j) else times d indices j

pub times-IsCell : (d : IbfCell) (indices : List ℕ) (j : ℕ) → IsCell (times d indices j)
unfolding times
times-IsCell d [] j = omega arith
times-IsCell d (i ∷ indices) j =
    ground (arith, add_cell-IsCell d (times d indices j), times-IsCell d indices j)

bump-IsCell :
    (d : IbfCell) (i : ℕ) (cells : Ibf) (j : ℕ) → IsCell (cells j) → IsCell (bump d i cells j)
unfolding bump
bump-IsCell d i cells j h = ground (arith, add_cell-IsCell (cells j) d)

pub touch-IsCell :
    (d : IbfCell) (indices : List ℕ) (cells : Ibf) (j : ℕ)
    → IsCell (cells j)
    → IsCell (touch d indices cells j)
unfolding touch
touch-IsCell d [] cells j h = h
touch-IsCell d (i ∷ indices) cells j h =
    touch-IsCell d indices (bump d i cells) j (bump-IsCell d i cells j h)

-- touching cells adds a multiple to each
pub touch-times :
    (d : IbfCell) (indices : List ℕ) (cells : Ibf) (j : ℕ)
    → IsCell (cells j)
    → touch d indices cells j ≡ add_cell (cells j) (times d indices j)
unfolding touch times bump
touch-times d [] cells j h = sym (add_cell-zero (cells j) h)
touch-times d (i ∷ indices) cells j h =
    touch-times d indices (bump d i cells) j (bump-IsCell d i cells j h)
    ∙ ground (arith, add_cell_assoc (cells j) d (times d indices j))

-- the multiples of a cell and of its inverse cancel
add_cell_rotate : (c d e : IbfCell) → add_cell c (add_cell d e) ≡ add_cell d (add_cell c e)
add_cell_rotate c d e =
    sym (add_cell_assoc c d e) ∙ ap (λ x. add_cell x e) (add_cell_comm c d) ∙ add_cell_assoc d c e

pub negate-times :
    (d : IbfCell) (indices : List ℕ) (j : ℕ)
    → IsCell d
    → times (negate d) indices j ≡ negate (times d indices j)
unfolding times
negate-times d [] j h = unfold negate in refl
negate-times d (i ∷ indices) j h = ground (
  arith,
  negate-times d indices j,
  negate-add_cell d (times d indices j) h (times-IsCell d indices j),
)

pub add_cell-negate : (c d : IbfCell) → IsCell c → IsCell d → add_cell (add_cell c d) (negate d) ≡ c
unfolding add_cell negate
add_cell-negate c d h k = ground (
  arith,
  xor_assoc c.id_sum d.id_sum d.id_sum,
  xor_self d.id_sum,
  xor-zero c.id_sum,
  xor_assoc c.hash_sum d.hash_sum d.hash_sum,
  xor_self d.hash_sum,
  xor-zero c.hash_sum,
)

module _ (hash : IbfHash) where
  -- what one id, and what a list of ids, puts into a cell
  unfoldable pub share : ℕ → ℕ → IbfCell
  share id j = times (element hash 1 id) (cell_indices hash id) j

  unfoldable pub total : List ℕ → ℕ → IbfCell
  total [] j = zero_cell
  total (id ∷ ids) j = add_cell (share id j) (total ids j)

  pub share-IsCell : (id j : ℕ) → IsCell (share id j)
  unfolding share
  share-IsCell id j = times-IsCell (element hash 1 id) (cell_indices hash id) j

  pub total-IsCell : (ids : List ℕ) (j : ℕ) → IsCell (total ids j)
  unfolding total
  total-IsCell [] j = omega arith
  total-IsCell (id ∷ ids) j = add_cell-IsCell (share id j) (total ids j)

  insert_all-total :
      (ids : List ℕ) (cells : Ibf) (j : ℕ)
      → IsCell (cells j)
      → insert_all hash ids cells j ≡ add_cell (cells j) (total ids j)
  unfolding insert_all insert total share
  insert_all-total [] cells j h = sym (add_cell-zero (cells j) h)
  insert_all-total (id ∷ ids) cells j h =
      let d : IbfCell = element hash 1 id in
      let indices : List ℕ = cell_indices hash id in
      insert_all-total ids (touch d indices cells) j (touch-IsCell d indices cells j h)
      ∙ ap (λ c. add_cell c (total ids j)) (touch-times d indices cells j h)
      ∙ add_cell_assoc (cells j) (times d indices j) (total ids j)

  -- the filter of a list of ids holds their shares
  pub from_ids-total : (ids : List ℕ) (j : ℕ) → from_ids hash ids j ≡ total ids j
  unfolding from_ids
  from_ids-total ids j =
      insert_all-total ids new_ibf j (omega arith)
      ∙ add_cell_comm zero_cell (total ids j)
      ∙ add_cell-zero (total ids j) (total-IsCell ids j)

  pub total-append :
      (ids others : List ℕ) (j : ℕ)
      → total (ids ++ others) j ≡ add_cell (total ids j) (total others j)
  unfolding total
  total-append [] others j = sym (
      add_cell_comm zero_cell (total others j)
      ∙ add_cell-zero (total others j) (total-IsCell others j))
  total-append (id ∷ ids) others j =
      ap (add_cell (share id j)) (total-append ids others j)
      ∙ sym (add_cell_assoc (share id j) (total ids j) (total others j))

  pub total-perm : {ids others : List ℕ} → Permᴰ ids others → (j : ℕ) → total ids j ≡ total others j
  unfolding total
  total-perm Permᴰ.nil j = refl
  total-perm (Permᴰ.cons {a = a} {l₂ = l₂} e p) j =
      ap (add_cell (share a j)) (total-perm p j) ∙ ap (λ x. add_cell (share x j) (total l₂ j)) e
  total-perm (Permᴰ.swap {a = a} {b = b} {l = l} e f) j =
      add_cell_rotate (share a j) (share b j) (total l j)
      ∙ ap₂ (λ x y. add_cell (share x j) (add_cell (share y j) (total l j))) f e
  total-perm (Permᴰ.trans p q) j = total-perm p j ∙ total-perm q j
