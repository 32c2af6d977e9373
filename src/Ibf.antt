-- ===== src/Ibf.antt =====
-- core/crdt/src/ibf.rs: the invertible Bloom filter by which two peers find the ids that one has and
-- the other lacks. The cells are a function from positions: a filter has `ibf_cells` of them, and a
-- received one that is shorter acts in `subtract` as one with zero cells. An `i32` is its bit pattern,
-- and wraps round as in a release build. Keyed Blake3 hashes are parameters.
pub mod Cells
pub mod Decode
pub mod Sound
pub mod Single
use Prim.Native.Nat.{bit_xor}
use nodalmerge.Base.{
  ℕ, zero, suc, ◌+◌, ◌-◌, ◌%◌, Bool, true, false, ◌&&◌, ◌||◌, List, [], ◌∷◌, ◌++◌, Option, none,
  some, ◌==◌, if◌then◌else◌,
}

abbrev pub ibf_cells : ℕ
ibf_cells = 80

-- the number of `i32` values
abbrev pub i32_mod : ℕ
i32_mod = 4294967296

pub record IbfCell : Type 0 where
  pub count : ℕ
  pub id_sum : ℕ
  pub hash_sum : ℕ

-- `IbfCell::default()`
abbrev pub zero_cell : IbfCell
zero_cell = record { count = 0; id_sum = 0; hash_sum = 0 }

abbrev pub Ibf : Type 0
Ibf = ℕ → IbfCell

-- the first eight bytes of a hash of an id under one of three keys, and the first four of its hash
pub record IbfHash : Type 0 where
  pub h0 : ℕ → ℕ
  pub h1 : ℕ → ℕ
  pub h2 : ℕ → ℕ
  pub id_checksum : ℕ → ℕ

-- adds a count to a cell, and an id and its checksum by exclusive or
unfoldable pub add_cell : IbfCell → IbfCell → IbfCell
add_cell c d = record {
  count = (c.count + d.count) % i32_mod;
  id_sum = bit_xor c.id_sum d.id_sum;
  hash_sum = bit_xor c.hash_sum d.hash_sum;
}

-- `self.cells[i]` with a cell added
unfoldable pub bump : IbfCell → ℕ → Ibf → Ibf
bump d i cells j = if i == j then add_cell (cells j) d else cells j

-- for each index in turn
unfoldable pub touch : IbfCell → List ℕ → Ibf → Ibf
touch d [] cells = cells
touch d (i ∷ indices) cells = touch d indices (bump d i cells)

-- `Ibf::new()`
abbrev pub new_ibf : Ibf
new_ibf = λ i. zero_cell

-- `subtract`, cell by cell
unfoldable pub subtract_cell : IbfCell → IbfCell → IbfCell
subtract_cell a b = record {
  count = (a.count + i32_mod - b.count) % i32_mod;
  id_sum = bit_xor a.id_sum b.id_sum;
  hash_sum = bit_xor a.hash_sum b.hash_sum;
}

unfoldable pub subtract : Ibf → Ibf → Ibf
subtract self other i = subtract_cell (self i) (other i)

-- `c.count == 0 && c.id_sum == [0u8; 32] && c.hash_sum == [0u8; 4]`
unfoldable pub is_zero_cell : IbfCell → Bool
is_zero_cell c = (c.count == 0) && (c.id_sum == 0) && (c.hash_sum == 0)

-- the first `n` cells are zero
unfoldable pub all_zero : ℕ → Ibf → Bool
all_zero zero cells = true
all_zero (suc n) cells = all_zero n cells && is_zero_cell (cells n)

module _ (hash : IbfHash) where
  open hash use {h0, h1, h2, id_checksum}

  unfoldable pub cell_indices : ℕ → List ℕ
  cell_indices id = h0 id % ibf_cells ∷ h1 id % ibf_cells ∷ h2 id % ibf_cells ∷ []

  -- one id, counted with a sign
  unfoldable pub element : ℕ → ℕ → IbfCell
  element count id = record { count = count; id_sum = id; hash_sum = id_checksum id }

  unfoldable pub insert : ℕ → Ibf → Ibf
  insert id cells = touch (element 1 id) (cell_indices id) cells

  unfoldable pub insert_all : List ℕ → Ibf → Ibf
  insert_all [] cells = cells
  insert_all (id ∷ ids) cells = insert_all ids (insert id cells)

  unfoldable pub from_ids : List ℕ → Ibf
  from_ids ids = insert_all ids new_ibf

  -- a count of 1 or -1, and the checksum of the one id that this leaves
  unfoldable pub is_pure : IbfCell → Bool
  is_pure c = (c.count == 1 || c.count == i32_mod - 1) && (id_checksum c.id_sum == c.hash_sum)

  -- the first pure cell from position `i` on, among `n`
  unfoldable pub find_pure : ℕ → ℕ → Ibf → Option ℕ
  find_pure zero i cells = none
  find_pure (suc n) i cells = if is_pure (cells i) then some i else find_pure n (suc i) cells

  -- takes the id out of the cells; a subtracted sign of -1 adds one
  unfoldable pub peel : ℕ → Bool → Ibf → Ibf
  peel id is_mine cells =
      touch (element (if is_mine then i32_mod - 1 else 1) id) (cell_indices id) cells

  -- the loop, with the rounds that are left
  unfoldable pub decode_loop : ℕ → Ibf → List ℕ → List ℕ → Option (List ℕ × List ℕ)
  decode_loop zero cells only_mine only_theirs = none
  decode_loop (suc rounds) cells only_mine only_theirs = elim (find_pure ibf_cells 0 cells) [
    | none ↦ if all_zero ibf_cells cells then some (only_mine, only_theirs) else none
    | some i ↦
        let id = (cells i).id_sum in
        elim ((cells i).count == 1) [
          | true ↦ decode_loop rounds (peel id true cells) (only_mine ++ id ∷ []) only_theirs
          | false ↦ decode_loop rounds (peel id false cells) only_mine (only_theirs ++ id ∷ [])
        ]
  ]

  -- `IBF_CELLS * 4` rounds
  unfoldable pub decode : Ibf → Option (List ℕ × List ℕ)
  decode cells = decode_loop 320 cells [] []
