-- ===== src/Op/Hex.antt =====
-- `ItemId::to_hex` and `ItemId::from_hex` of core/crdt/src/op.rs, over the bytes of the id.
-- `from_str_radix` is the standard library's; it also takes a leading `+`, which the model keeps.
use nodalmerge.Base.{
  ℕ, ◌+◌, ◌-◌, ◌*◌, ◌/◌, ◌%◌, ◌<◌, ◌≡◌, refl, ap, ◌&&◌, Bytes, [], ◌∷◌, Option, none, some, arith,
  ltb, leb, ◌==◌, if◌then◌else◌, All, length,
}

-- the digit of `{:x}`
unfoldable pub hex_digit : ℕ → ℕ
hex_digit n = if ltb n 10 then n + b'0' else n - 10 + b'a'

unfoldable pub to_hex : Bytes → Bytes
unfolding hex_digit
to_hex [] = []
to_hex (b ∷ bs) = hex_digit (b / 16) ∷ hex_digit (b % 16) ∷ to_hex bs

-- `hex_nibble` of frontier.rs, node.rs and token.rs
unfoldable pub hex_nibble : ℕ → Option ℕ
hex_nibble b =
    if leb b'0' b && leb b b'9'
    then some (b - b'0')
    else if leb b'a' b && leb b b'f'
    then some (b - b'a' + 10)
    else if leb b'A' b && leb b b'F'
    then some (b - b'A' + 10)
    else none

join_nibbles : Option ℕ → Option ℕ → Option ℕ
join_nibbles (some hi) (some lo) = some (hi * 16 + lo)
join_nibbles (some hi) none = none
join_nibbles none lo = none

push_byte : Option ℕ → Option Bytes → Option Bytes
push_byte (some b) (some bs) = some (b ∷ bs)
push_byte (some b) none = none
push_byte none rest = none

-- the loop of `hex_to_array` and `parse_hex_hash` over the chunks of two characters
unfoldable pub hex_chunks : Bytes → Option Bytes
unfolding join_nibbles push_byte hex_nibble
hex_chunks [] = some []
hex_chunks (h ∷ []) = none
hex_chunks (h ∷ l ∷ rest) = push_byte (join_nibbles (hex_nibble h) (hex_nibble l)) (hex_chunks rest)

-- `hex_to_array::<N>`
unfoldable pub hex_to_array : ℕ → Bytes → Option Bytes
unfolding hex_chunks
hex_to_array n s = if length s == n * 2 then hex_chunks s else none

hex_nibble-hex_digit : (n : ℕ) → n < 16 → hex_nibble (hex_digit n) ≡ some n
unfolding hex_nibble hex_digit
hex_nibble-hex_digit n h = ground arith

hex_chunks-to_hex : (bs : Bytes) → All (λ b. b < 256) bs → hex_chunks (to_hex bs) ≡ some bs
unfolding hex_chunks to_hex
hex_chunks-to_hex [] h = refl
hex_chunks-to_hex (b ∷ bs) h =
    rw
      (
        hex_nibble-hex_digit (b / 16) (omega arith),
        hex_nibble-hex_digit (b % 16) (omega arith),
        hex_chunks-to_hex bs h.1,
      )
      (ap (λ (n : ℕ). some (n ∷ bs)) (omega arith))

length-to_hex : (bs : Bytes) → length (to_hex bs) ≡ length bs * 2
unfolding to_hex
length-to_hex [] = refl
length-to_hex (b ∷ bs) = omega (arith, length-to_hex bs)

-- Printing an array of `n` bytes in lower-case hexadecimal and parsing it with `hex_to_array::<n>`
-- gives the array back.
pub hex_to_array-to_hex :
    (bs : Bytes) → All (λ b. b < 256) bs → hex_to_array (length bs) (to_hex bs) ≡ some bs
unfolding hex_to_array
hex_to_array-to_hex bs h = ground (arith, length-to_hex bs, hex_chunks-to_hex bs h)
