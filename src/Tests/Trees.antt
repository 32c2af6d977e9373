-- ===== src/Tests/Trees.antt =====
-- Merkle search trees of two ids and of one.
use mathlib.Core.Path.{ap₂}
use nodalmerge.Base.{
  zero, suc, ◌≢◌, sym, ap, List, map, Option, none, some, arith, ℕ, ◌+◌, ◌^◌, ◌≡◌, refl, false, not,
  ◌&&◌, [], ◌∷◌, ◌==◌, contains, retain,
}
use nodalmerge.Base.Sort.{insert, sort}
use nodalmerge.Mst.{
  MstHash, byte_at, nibble_at, group_of, leaf, build_groups, build_recursive, from_ids, root_hash,
  all_keys_set, stored_keys, collect_set, simulate_sync,
}
use nodalmerge.Mst.Roots.{IsCollisionFree, root_hash-same}
use nodalmerge.Mst.Keys.{simulate_sync-difference}

abbrev hashes : MstHash
hashes = record {
  leaf_hash = λ keys. elim keys [ [] ↦ 0 | key ∷ others ↦ key + 1 ];
  internal_hash = λ children. 0;
}

-- the first nibble is 1
abbrev high : ℕ
high = 16 ^ 63

roots_differ :
    (root_hash (from_ids hashes (high ∷ 1 ∷ [])) == root_hash (from_ids hashes (1 ∷ []))) ≡ false
unfolding root_hash from_ids build_recursive build_groups group_of nibble_at byte_at leaf sort
    insert retain
roots_differ = refl

two_keys : all_keys_set (from_ids hashes (high ∷ 1 ∷ [])) ≡ 1 ∷ high ∷ []
unfolding all_keys_set stored_keys collect_set contains from_ids build_recursive build_groups
    group_of nibble_at byte_at leaf sort insert retain
two_keys = refl

simulate_sync-difference_example :
    (contains
        (simulate_sync
          (λ n. n)
          (from_ids hashes (high ∷ 1 ∷ []))
          (from_ids hashes (1 ∷ []))).only_mine
        high
      ≡ (contains (high ∷ 1 ∷ []) high && not (contains (1 ∷ []) high)))
    × (contains
          (simulate_sync
            (λ n. n)
            (from_ids hashes (high ∷ 1 ∷ []))
            (from_ids hashes (1 ∷ []))).only_theirs
          high
        ≡ (contains (1 ∷ []) high && not (contains (high ∷ 1 ∷ []) high)))
simulate_sync-difference_example =
    simulate_sync-difference hashes (λ n. n) (high ∷ 1 ∷ []) (1 ∷ []) high roots_differ

-- hashes without collisions: `2 ^ a * (2 * m + 1)` tells what `a` and `m` are
unfoldable encode : ℕ → ℕ → ℕ
encode zero m = m + m + 1
encode (suc a) m = encode a m + encode a m

encode_injective : (a b m n : ℕ) → encode a m ≡ encode b n → (a ≡ b) × (m ≡ n)
unfolding encode
encode_injective zero zero m n e = (refl, omega (arith, e))
encode_injective zero (suc b) m n e = absurd (omega (arith, e))
encode_injective (suc a) zero m n e = absurd (omega (arith, e))
encode_injective (suc a) (suc b) m n e =
    let (same, rest) = encode_injective a b m n (omega (arith, e)) in (ap suc same, rest)

encode_positive : (a m : ℕ) → encode a m ≢ 0
unfolding encode
encode_positive zero m e = omega (arith, e)
encode_positive (suc a) m e = encode_positive a m (omega (arith, e))

encode_keys : List ℕ → ℕ
unfolding encode
encode_keys [] = 0
encode_keys (key ∷ keys) = encode key (encode_keys keys)

encode_keys_injective : (a b : List ℕ) → encode_keys a ≡ encode_keys b → a ≡ b
unfolding encode_keys
encode_keys_injective [] [] e = refl
encode_keys_injective [] (b ∷ bs) e = absurd (encode_positive b (encode_keys bs) (sym e))
encode_keys_injective (a ∷ l) [] e = absurd (encode_positive a (encode_keys l) e)
encode_keys_injective (a ∷ l) (b ∷ bs) e =
    let (same, rest) = encode_injective a b (encode_keys l) (encode_keys bs) e in
    ap₂ ◌∷◌ same (encode_keys_injective l bs rest)

child_number : Option ℕ → ℕ
child_number none = 0
child_number (some hash) = suc hash

child_number_injective : (a b : Option ℕ) → child_number a ≡ child_number b → a ≡ b
unfolding child_number
child_number_injective a b e = ground (arith, e)

map_injective : (a b : List (Option ℕ)) → map child_number a ≡ map child_number b → a ≡ b
map_injective [] [] e = refl
map_injective [] (b ∷ bs) e = absurd (ground (arith, e))
map_injective (a ∷ l) [] e = absurd (ground (arith, e))
map_injective (a ∷ l) (b ∷ bs) e =
    ap₂ ◌∷◌ (child_number_injective a b (ground (arith, e)))
      (map_injective l bs (ground (arith, e)))

abbrev encoded : MstHash
encoded = record {
  leaf_hash = λ keys. encode_keys keys + encode_keys keys + 1;
  internal_hash = λ children.
      encode_keys (map child_number children) + encode_keys (map child_number children) + 2;
}

encoded-IsCollisionFree : IsCollisionFree encoded
encoded-IsCollisionFree = record {
  leaf_injective = λ a b e. encode_keys_injective a b (omega (arith, e));
  internal_injective =
      λ a b h k e. map_injective a b (encode_keys_injective _ _ (omega (arith, e)));
  leaf-internal = λ a b e. omega (arith, e);
  leaf_positive = λ a e. omega (arith, e);
  internal_positive = λ b e. omega (arith, e);
}

orders_agree :
    root_hash (from_ids encoded (high ∷ 1 ∷ [])) ≡ root_hash (from_ids encoded (1 ∷ high ∷ []))
unfolding from_ids sort insert
orders_agree = refl

root_hash-same_example : contains (high ∷ 1 ∷ []) high ≡ contains (1 ∷ high ∷ []) high
root_hash-same_example =
    root_hash-same encoded encoded-IsCollisionFree (high ∷ 1 ∷ []) (1 ∷ high ∷ []) orders_agree high
