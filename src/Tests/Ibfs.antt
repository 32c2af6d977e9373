-- ===== src/Tests/Ibfs.antt =====
-- The set-difference filters at concrete inputs.
use mathlib.Core.List.{Permᴰ}
use nodalmerge.Base.{ℕ, ◌+◌, ◌*◌, ◌%◌, ◌≡◌, refl, List, [], ◌∷◌, some, arith}
use nodalmerge.Ibf.{
  Ibf, IbfHash, add_cell, bump, touch, subtract_cell, subtract, is_zero_cell, all_zero,
  cell_indices, element, insert, insert_all, from_ids, is_pure, find_pure, peel, decode_loop,
  decode,
}
use nodalmerge.Base.Folds.{Permᴰ-refl}
use nodalmerge.Ibf.Cells.{IsCell}
use nodalmerge.Ibf.Decode.{subtract-from_ids}
use nodalmerge.Ibf.Sound.{decode-gap}
use nodalmerge.Ibf.Single.{decode-single}

abbrev toy_hash : IbfHash
toy_hash = record {
  h0 = λ id. id;
  h1 = λ id. id * 7 + 1;
  h2 = λ id. id * 13 + 2;
  id_checksum = λ id. id * 31 % 251;
}

-- both hold 5 and 9, and each holds two more
abbrev ours : List ℕ
ours = 5 ∷ 11 ∷ 9 ∷ 12 ∷ []

abbrev theirs : List ℕ
theirs = 9 ∷ 20 ∷ 5 ∷ 33 ∷ []

abbrev gap : Ibf
gap = subtract (from_ids toy_hash ours) (from_ids toy_hash theirs)

decoded : decode toy_hash gap ≡ some (12 ∷ 11 ∷ [], 20 ∷ 33 ∷ [])
unfolding decode decode_loop find_pure is_pure peel touch bump add_cell subtract subtract_cell
    from_ids insert_all insert element cell_indices all_zero is_zero_cell
decoded = refl

gap-IsCell : (i : ℕ) → IsCell (gap i)
unfolding subtract subtract_cell
gap-IsCell i = omega arith

decode-gap_example :
    gap 78 ≡ subtract (from_ids toy_hash (12 ∷ 11 ∷ [])) (from_ids toy_hash (20 ∷ 33 ∷ [])) 78
decode-gap_example =
    decode-gap toy_hash gap (12 ∷ 11 ∷ []) (20 ∷ 33 ∷ []) gap-IsCell decoded 78 (omega arith)

subtract-from_ids_example :
    subtract (from_ids toy_hash (9 ∷ 5 ∷ 12 ∷ [])) (from_ids toy_hash (5 ∷ 9 ∷ 20 ∷ []))
    ≡ subtract (from_ids toy_hash (12 ∷ [])) (from_ids toy_hash (20 ∷ []))
subtract-from_ids_example =
    subtract-from_ids toy_hash (9 ∷ 5 ∷ []) (12 ∷ []) (20 ∷ []) (Permᴰ-refl _)
      (Permᴰ.swap refl refl)

decode-single_example :
    decode toy_hash
      (subtract (from_ids toy_hash (5 ∷ 9 ∷ 12 ∷ [])) (from_ids toy_hash (9 ∷ 5 ∷ [])))
    ≡ some (12 ∷ [], [])
decode-single_example =
    decode-single toy_hash (5 ∷ 9 ∷ []) 12 (Permᴰ-refl _) (Permᴰ.swap refl refl) (ground arith)
