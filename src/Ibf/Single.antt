-- ===== src/Ibf/Single.antt =====
-- A difference of one id, in the filters of core/crdt/src/ibf.rs.
use mathlib.Core.List.{Permᴰ}
use mathlib.Core.Path.{ap₂}
use nodalmerge.Base.{
  ℕ, zero, suc, ◌+◌, ◌%◌, ◌≤◌, ◌<◌, ◌≡◌, refl, ap, ◌∙◌, fun_ext, true, false, ◌&&◌, List, [], ◌∷◌,
  ◌++◌, some, arith, inl, inr, ◌==◌, ==_iff, Bool-cases,
}
use nodalmerge.Base.Xor.{xor-zero, xor_self}
use nodalmerge.Ibf.{
  ibf_cells, IbfCell, zero_cell, Ibf, IbfHash, add_cell, subtract_cell, subtract, is_zero_cell,
  all_zero, cell_indices, element, from_ids, is_pure, find_pure, peel, decode_loop, decode,
}
use nodalmerge.Ibf.Cells.{
  IsCell, negate, add_cell-zero, times, share, total, share-IsCell, from_ids-total,
}
use nodalmerge.Ibf.Decode.{subtract-from_ids}
use nodalmerge.Ibf.Sound.{peel-mine}

subtract_cell-zero : (c : IbfCell) → IsCell c → subtract_cell c zero_cell ≡ c
unfolding subtract_cell
subtract_cell-zero c h = ground (arith, xor-zero c.id_sum, xor-zero c.hash_sum)

add_cell-inverse : (c : IbfCell) → IsCell c → add_cell c (negate c) ≡ zero_cell
unfolding add_cell negate
add_cell-inverse c h = ground (arith, xor_self c.id_sum, xor_self c.hash_sum)

module _ (hash : IbfHash) where
  -- the search finds a pure cell where there is one
  find_pure-finds :
      (n i : ℕ) (cells : Ibf) (k : ℕ)
      → i ≤ k
      → k < i + n
      → is_pure hash (cells k) ≡ true
      → (m : ℕ) × (find_pure hash n i cells ≡ some m) × (is_pure hash (cells m) ≡ true)
  unfolding find_pure
  find_pure-finds zero i cells k lo hi pure = absurd (omega arith)
  find_pure-finds (suc n) i cells k lo hi pure = elim (Bool-cases (is_pure hash (cells i))) [
    | inl here ↦ (i, rw here, here)
    | inr other ↦ elim (Bool-cases (i == k)) [
      | inl same ↦
          let e : i ≡ k = (==_iff i k).0 same in
          let clash : is_pure hash (cells i) ≡ true = ap (λ x. is_pure hash (cells x)) e ∙ pure in
          absurd (ground arith)
      | inr apart ↦ rw other (find_pure-finds n (suc i) cells k (ground arith) (ground arith) pure)
    ]
  ]

  -- a cell that the id is counted in once holds that id, and no other cell looks pure
  share_once : (id j : ℕ) → (share hash id j).count ≡ 1 → share hash id j ≡ element hash 1 id
  unfolding share times cell_indices add_cell element
  share_once id j h = ground (arith, xor-zero id, xor-zero (hash.id_checksum id))

  share_pure : (id j : ℕ) → is_pure hash (share hash id j) ≡ true → (share hash id j).count ≡ 1
  unfolding share times cell_indices add_cell element is_pure
  share_pure id j h = ground arith

  element-pure : (id : ℕ) → is_pure hash (element hash 1 id) ≡ true
  unfolding element is_pure
  element-pure id = ground arith

  nothing_left :
      (mine theirs : List ℕ)
      → decode_loop hash 319 (λ j. zero_cell) mine theirs ≡ some (mine, theirs)
  unfolding decode_loop find_pure is_pure all_zero is_zero_cell
  nothing_left mine theirs = refl

  -- an id whose three positions are not all one has a cell to itself
  own_cell :
      (id : ℕ)
      → ((hash.h0 id % ibf_cells == hash.h1 id % ibf_cells)
          && (hash.h1 id % ibf_cells == hash.h2 id % ibf_cells))
        ≡ false
      → (k : ℕ) × (k < ibf_cells) × ((share hash id k).count ≡ 1)
  unfolding share times cell_indices add_cell element
  own_cell id apart = elim (Bool-cases (hash.h0 id % ibf_cells == hash.h1 id % ibf_cells)) [
    | inl same ↦ (hash.h2 id % ibf_cells, omega arith, ground arith)
    | inr other ↦ elim (Bool-cases (hash.h0 id % ibf_cells == hash.h2 id % ibf_cells)) [
      | inl again ↦ (hash.h1 id % ibf_cells, omega arith, ground arith)
      | inr alone ↦ (hash.h0 id % ibf_cells, omega arith, ground arith)
    ]
  ]

  share-pure : (id k : ℕ) → (share hash id k).count ≡ 1 → is_pure hash (share hash id k) ≡ true
  share-pure id k once = ap (is_pure hash) (share_once id k once) ∙ element-pure id

  lone_cell : (id j : ℕ) → subtract (from_ids hash (id ∷ [])) (from_ids hash []) j ≡ share hash id j
  unfolding subtract total
  lone_cell id j =
      ap₂ subtract_cell
        (from_ids-total hash (id ∷ []) j ∙ add_cell-zero (share hash id j) (share-IsCell hash id j))
        (from_ids-total hash [] j)
      ∙ subtract_cell-zero (share hash id j) (share-IsCell hash id j)

  peeled : (id : ℕ) → peel hash id true (share hash id) ≡ (λ j. zero_cell)
  peeled id = fun_ext (λ j.
      peel-mine hash id (share hash id) j (share-IsCell hash id j)
      ∙ add_cell-inverse (share hash id j) (share-IsCell hash id j))

  peel_one :
      (id m : ℕ) (cells : Ibf) (rounds : ℕ)
      → find_pure hash ibf_cells 0 cells ≡ some m
      → (cells m).count ≡ 1
      → (cells m).id_sum ≡ id
      → decode_loop hash (suc rounds) cells [] []
        ≡ decode_loop hash rounds (peel hash id true cells) (id ∷ []) []
  unfolding decode_loop
  peel_one id m cells rounds found once own = rw (found, once, own, decode_loop) refl

  -- A difference of one id, whichever other ids the two sides share, is decoded, if the three positions
  -- of the id are not all one.
  pub decode-single :
      (shared : List ℕ) (id : ℕ) {xs ys : List ℕ}
      → Permᴰ xs (shared ++ id ∷ [])
      → Permᴰ ys (shared ++ [])
      → ((hash.h0 id % ibf_cells == hash.h1 id % ibf_cells)
          && (hash.h1 id % ibf_cells == hash.h2 id % ibf_cells))
        ≡ false
      → decode hash (subtract (from_ids hash xs) (from_ids hash ys)) ≡ some (id ∷ [], [])
  unfolding decode element
  decode-single shared id p q apart =
      let (k, lt, once) = own_cell id apart in
      let (m, found, pure) =
        find_pure-finds ibf_cells 0 (share hash id) k (omega arith) (omega arith)
          (share-pure id k once) in
      let one : (share hash id m).count ≡ 1 = share_pure id m pure in
      ap (decode hash) (subtract-from_ids hash shared (id ∷ []) [] p q ∙ fun_ext (lone_cell id))
      ∙ peel_one id m (share hash id) 319 found one (ap (λ c. c.id_sum) (share_once id m one))
      ∙ ap (λ cells. decode_loop hash 319 cells (id ∷ []) []) (peeled id)
      ∙ nothing_left (id ∷ []) []
