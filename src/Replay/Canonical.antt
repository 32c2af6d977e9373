-- ===== src/Replay/Canonical.antt =====
-- The bytes that `canonical_hash` of core/crdt/src/replay.rs hashes determine the map.
use nodalmerge.Base.{
  ℕ, ◌^◌, ◌<◌, ◌≡◌, ◌≢◌, refl, sym, ◌∙◌, Bytes, List, [], ◌∷◌, ◌++◌, arith, length, All,
}
use nodalmerge.Base.Endian.{le_bytes, split_length, length-le_bytes, le_bytes-injective}
use nodalmerge.Replay.{canonical_bytes}

-- the lengths of a key and its value fit in 32 bits
abbrev pub IsShort : Bytes × Bytes → Type 0
IsShort (key, value) = (length key < 2 ^ 32) × (length value < 2 ^ 32)

-- a string behind its length is read back
prefixed :
    (s t s' t' : Bytes)
    → length s < 2 ^ 32
    → length s' < 2 ^ 32
    → le_bytes 4 (length s) ++ (s ++ t) ≡ le_bytes 4 (length s') ++ (s' ++ t')
    → (s ≡ s') × (t ≡ t')
prefixed s t s' t' h k e =
    let (sizes, rest) =
      split_length (le_bytes 4 (length s)) (le_bytes 4 (length s')) (s ++ t) (s' ++ t')
        (length-le_bytes 4 (length s) ∙ sym (length-le_bytes 4 (length s'))) e in
    split_length s s' t t'
      (le_bytes-injective 4 (length s) (length s') (omega arith) (omega arith) sizes) rest

no_bytes : (n : ℕ) (s : Bytes) → [] ≢ le_bytes 4 n ++ s
unfolding le_bytes
no_bytes n s e = absurd (ground arith)

-- Maps whose keys and values are shorter than 2^32 bytes are equal if the hash is fed the same bytes
-- for both.
pub canonical_bytes-injective :
    (m m' : List (Bytes × Bytes))
    → All IsShort m
    → All IsShort m'
    → canonical_bytes m ≡ canonical_bytes m'
    → m ≡ m'
unfolding canonical_bytes
canonical_bytes-injective [] [] h k e = refl
canonical_bytes-injective [] ((key, value) ∷ m') h k e = absurd (no_bytes (length key) _ e)
canonical_bytes-injective ((key, value) ∷ m) [] h k e = absurd (no_bytes (length key) _ (sym e))
canonical_bytes-injective ((key, value) ∷ m) ((key', value') ∷ m') h k e =
    let (keys, rest) = prefixed key _ key' _ h.0.0 k.0.0 e in
    let (values, others) = prefixed value _ value' _ h.0.1 k.0.1 rest in
    let tail : m ≡ m' = canonical_bytes-injective m m' h.1 k.1 others in ground arith
