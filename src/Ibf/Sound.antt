-- ===== src/Ibf/Sound.antt =====
-- What `decode` of core/crdt/src/ibf.rs finds explains the filter, cell by cell.
use nodalmerge.Base.{
  ℕ, zero, suc, ◌<◌, ◌≡◌, refl, sym, ap, ◌∙◌, Bool, true, false, List, [], ◌∷◌, ◌++◌, Option, some,
  arith, inl, inr, ◌==◌, Bool-cases, Option-cases,
}
use mathlib.Core.Path.{ap₂}
use nodalmerge.Ibf.{
  ibf_cells, IbfCell, zero_cell, Ibf, IbfHash, add_cell, subtract_cell, subtract, all_zero,
  cell_indices, element, from_ids, find_pure, peel, decode_loop, decode,
}
use nodalmerge.Ibf.Cells.{
  IsCell, negate, add_cell-zero, add_cell_comm, touch-times, touch-IsCell, negate-times, share,
  total, share-IsCell, total-IsCell, from_ids-total, total-append,
}
use nodalmerge.Ibf.Decode.{balance_mine, balance_theirs, all_zero-cell}

module _ (hash : IbfHash) where
  total-last :
      (ids : List ℕ) (id j : ℕ)
      → total hash (ids ++ id ∷ []) j ≡ add_cell (total hash ids j) (share hash id j)
  unfolding total
  total-last ids id j =
      total-append hash ids (id ∷ []) j
      ∙ ap (add_cell (total hash ids j)) (add_cell-zero (share hash id j) (share-IsCell hash id j))

  pub peel-IsCell :
      (id : ℕ) (is_mine : Bool) (cells : Ibf) (j : ℕ)
      → IsCell (cells j)
      → IsCell (peel hash id is_mine cells j)
  unfolding peel
  peel-IsCell id is_mine cells j = touch-IsCell _ (cell_indices hash id) cells j

  -- an id that is taken out of this side's cells
  pub peel-mine :
      (id : ℕ) (cells : Ibf) (j : ℕ)
      → IsCell (cells j)
      → peel hash id true cells j ≡ add_cell (cells j) (negate (share hash id j))
  unfolding peel share element negate
  peel-mine id cells j h =
      touch-times _ (cell_indices hash id) cells j h
      ∙ ap (add_cell (cells j))
          (negate-times (element hash 1 id) (cell_indices hash id) j (omega arith))

  peel-theirs :
      (id : ℕ) (cells : Ibf) (j : ℕ)
      → IsCell (cells j)
      → peel hash id false cells j ≡ add_cell (cells j) (share hash id j)
  unfolding peel share
  peel-theirs id cells j h = touch-times _ (cell_indices hash id) cells j h

  -- the cell of the difference of two lists of ids
  abbrev gap : List ℕ → List ℕ → ℕ → IbfCell
  gap mine theirs j = subtract_cell (total hash mine j) (total hash theirs j)

  step-mine :
      (id : ℕ) (cells : Ibf) (mine theirs : List ℕ) (j : ℕ)
      → IsCell (cells j)
      → add_cell (peel hash id true cells j) (gap (mine ++ id ∷ []) theirs j)
        ≡ add_cell (cells j) (gap mine theirs j)
  step-mine id cells mine theirs j h =
      ap₂ (λ c m. add_cell c (subtract_cell m (total hash theirs j))) (peel-mine id cells j h)
        (total-last mine id j)
      ∙ balance_mine (cells j) (total hash mine j) (total hash theirs j) (share hash id j)
          (total-IsCell hash mine j) (total-IsCell hash theirs j) (share-IsCell hash id j)

  step-theirs :
      (id : ℕ) (cells : Ibf) (mine theirs : List ℕ) (j : ℕ)
      → IsCell (cells j)
      → add_cell (peel hash id false cells j) (gap mine (theirs ++ id ∷ []) j)
        ≡ add_cell (cells j) (gap mine theirs j)
  step-theirs id cells mine theirs j h =
      ap₂ (λ c t. add_cell c (subtract_cell (total hash mine j) t)) (peel-theirs id cells j h)
        (total-last theirs id j)
      ∙ balance_theirs (cells j) (total hash mine j) (total hash theirs j) (share hash id j)
          (total-IsCell hash mine j) (total-IsCell hash theirs j) (share-IsCell hash id j)

  gap-IsCell : (mine theirs : List ℕ) (j : ℕ) → IsCell (gap mine theirs j)
  unfolding subtract_cell
  gap-IsCell mine theirs j = omega arith

  empty_gap : (j : ℕ) → gap [] [] j ≡ zero_cell
  unfolding subtract_cell total
  empty_gap j = refl

  -- the loop keeps the balance of each cell
  decode_loop-gap :
      (rounds : ℕ) (cells : Ibf) (mine theirs : List ℕ) {found : List ℕ × List ℕ} (j : ℕ)
      → ((i : ℕ) → IsCell (cells i))
      → j < ibf_cells
      → decode_loop hash rounds cells mine theirs ≡ some found
      → add_cell (cells j) (gap mine theirs j) ≡ gap found.0 found.1 j
  unfolding decode_loop
  decode_loop-gap zero cells mine theirs j h lt done = absurd (ground arith)
  decode_loop-gap (suc rounds) cells mine theirs {found} j h lt done =
      elim (Option-cases (find_pure hash ibf_cells 0 cells)) [
        | inl stuck ↦ elim (Bool-cases (all_zero ibf_cells cells)) [
          | inl clean ↦
              let same : ◌≡◌ {A = Option (List ℕ × List ℕ)} (some (mine, theirs)) (some found) =
                rw (stuck, clean, decode_loop) at done in
              let e : ◌≡◌ {A = List ℕ × List ℕ} (mine, theirs) found = ground arith in
              ap (λ c. add_cell c (gap mine theirs j)) (all_zero-cell ibf_cells cells j clean lt)
              ∙ add_cell_comm zero_cell (gap mine theirs j)
              ∙ add_cell-zero (gap mine theirs j) (gap-IsCell mine theirs j)
              ∙ ap (λ (f : List ℕ × List ℕ). gap f.0 f.1 j) e
          | inr left ↦ absurd (ground arith)
        ]
        | inr (i, pure) ↦ elim (Bool-cases ((cells i).count == 1)) [
          | inl here ↦
              sym (step-mine (cells i).id_sum cells mine theirs j (h j))
              ∙ decode_loop-gap rounds (peel hash (cells i).id_sum true cells)
                  (mine ++ (cells i).id_sum ∷ []) theirs j
                  (λ k. peel-IsCell (cells i).id_sum true cells k (h k)) lt
                  (rw (pure, here, decode_loop) at done)
          | inr there ↦
              sym (step-theirs (cells i).id_sum cells mine theirs j (h j))
              ∙ decode_loop-gap rounds (peel hash (cells i).id_sum false cells) mine
                  (theirs ++ (cells i).id_sum ∷ []) j
                  (λ k. peel-IsCell (cells i).id_sum false cells k (h k)) lt
                  (rw (pure, there, decode_loop) at done)
        ]
      ]

  -- The ids that `decode` returns explain the cells that it was given: each cell is that of the filter
  -- of the ids on this side less the filter of those on the other.
  pub decode-gap :
      (cells : Ibf) (mine theirs : List ℕ)
      → ((i : ℕ) → IsCell (cells i))
      → decode hash cells ≡ some (mine, theirs)
      → (j : ℕ) → j < ibf_cells
      → cells j ≡ subtract (from_ids hash mine) (from_ids hash theirs) j
  unfolding decode subtract
  decode-gap cells mine theirs h done j lt =
      sym (add_cell-zero (cells j) (h j))
      ∙ ap (add_cell (cells j)) (sym (empty_gap j))
      ∙ decode_loop-gap 320 cells [] [] j h lt done
      ∙ sym (ap₂ subtract_cell (from_ids-total hash mine j) (from_ids-total hash theirs j))
