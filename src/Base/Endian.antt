-- ===== src/Base/Endian.antt =====
-- Numbers as arrays of bytes: `to_le_bytes`, `from_le_bytes`, and the bytes of a hash, which is read
-- as its big-endian number.
use native.Mathlib.Nat.{pow-suc, div-add-mod, mod-lt, add-mul-div_right, div-lt_iff_lt-mul}
use Prim.Native.Nat.{ℕ, zero, suc, ◌+◌, ◌*◌, ◌/◌, ◌%◌, ◌^◌, ◌<◌}
use mathlib.Core.Path.{◌≡◌, refl, ap, ap₂, ◌∙◌}
use mathlib.Core.List.{[], ◌∷◌, ◌++◌}
use native.Mathlib.Omega.{arith}
use nodalmerge.Base.ByteOrder.{Bytes}
use nodalmerge.Base.Lists.{length}

-- `to_le_bytes`, of the given width
unfoldable pub le_bytes : ℕ → ℕ → Bytes
le_bytes zero n = []
le_bytes (suc width) n = n % 256 ∷ le_bytes width (n / 256)

-- `from_le_bytes`
unfoldable pub from_le_bytes : Bytes → ℕ
from_le_bytes [] = 0
from_le_bytes (b ∷ bytes) = b + from_le_bytes bytes * 256

-- the `width` bytes of a fixed-size array, most significant first
unfoldable pub be_bytes : ℕ → ℕ → Bytes
be_bytes zero n = []
be_bytes (suc width) n = (n / 256 ^ width) % 256 ∷ be_bytes width n

-- the array that a slice of its size is
unfoldable pub from_be_bytes : Bytes → ℕ
from_be_bytes [] = 0
from_be_bytes (b ∷ bytes) = b * 256 ^ length bytes + from_be_bytes bytes

-- two strings of one length split in one way
pub split_length :
    (p p' s s' : Bytes) → length p ≡ length p' → p ++ s ≡ p' ++ s' → (p ≡ p') × (s ≡ s')
split_length [] [] s s' h e = (refl, e)
split_length [] (b ∷ p') s s' h e = absurd (omega arith)
split_length (a ∷ p) [] s s' h e = absurd (omega arith)
split_length (a ∷ p) (b ∷ p') s s' h e =
    let (same, rest) = split_length p p' s s' (omega arith) (ground arith) in (ground arith, rest)

pub length-le_bytes : (w n : ℕ) → length (le_bytes w n) ≡ w
unfolding le_bytes
length-le_bytes zero n = refl
length-le_bytes (suc w) n = ap suc (length-le_bytes w (n / 256))

pub le_bytes-injective :
    (w n m : ℕ) → n < 256 ^ w → m < 256 ^ w → le_bytes w n ≡ le_bytes w m → n ≡ m
unfolding le_bytes
le_bytes-injective zero n m h k e = omega arith
le_bytes-injective (suc w) n m h k e =
    let bound : 256 ^ suc w ≡ 256 ^ w * 256 = pow-suc 256 w in
    let high : n / 256 ≡ m / 256 =
      le_bytes-injective w (n / 256) (m / 256) (omega arith) (omega arith) (ground arith) in
    let low : n % 256 ≡ m % 256 = ground arith in omega arith

pub from_le_bytes-le_bytes : (w n : ℕ) → n < 256 ^ w → from_le_bytes (le_bytes w n) ≡ n
unfolding le_bytes from_le_bytes
from_le_bytes-le_bytes zero n h = omega arith
from_le_bytes-le_bytes (suc w) n h =
    let bound : 256 ^ suc w ≡ 256 ^ w * 256 = pow-suc 256 w in
    omega (arith, from_le_bytes-le_bytes w (n / 256) (omega arith))

pub length-be_bytes : (w n : ℕ) → length (be_bytes w n) ≡ w
unfolding be_bytes
length-be_bytes zero n = refl
length-be_bytes (suc w) n = ap suc (length-be_bytes w n)

base_pos : (w : ℕ) → 0 < 256 ^ w
base_pos zero = omega arith
base_pos (suc w) = omega (arith, base_pos w, pow-suc 256 w)

-- the digits above the width do not show
from_be_bytes_above : (w n k : ℕ) → n < 256 ^ w → from_be_bytes (be_bytes w (n + k * 256 ^ w)) ≡ n
unfolding be_bytes from_be_bytes
from_be_bytes_above zero n k h = omega arith
from_be_bytes_above (suc w) n k h =
    let b : ℕ = 256 ^ w in
    let pos : 0 < b = base_pos w in
    let bound : 256 ^ suc w ≡ b * 256 = pow-suc 256 w in
    let shift : n + k * 256 ^ suc w ≡ n + (k * 256) * b = ap (λ x. n + k * x) bound ∙ omega arith in
    let high : (n + (k * 256) * b) / b ≡ n / b + k * 256 = add-mul-div_right n (k * 256) pos in
    let digit : n / b < 256 = (div-lt_iff_lt-mul pos).1 (omega arith) in
    let split : b * (n / b) + n % b ≡ n = div-add-mod n b in
    let rest : n + (k * 256) * b ≡ n % b + (n / b + k * 256) * b = omega (arith, split) in
    let low : from_be_bytes (be_bytes w (n + (k * 256) * b)) ≡ n % b =
      ap (λ x. from_be_bytes (be_bytes w x)) rest
      ∙ from_be_bytes_above w (n % b) (n / b + k * 256) (mod-lt n pos) in
    let top : (n / b + k * 256) % 256 ≡ n / b = omega arith in
    ap (λ x. from_be_bytes (be_bytes (suc w) x)) shift
    ∙ ap₂ (λ x l. (x % 256) * 256 ^ l + from_be_bytes (be_bytes w (n + (k * 256) * b))) high
        (length-be_bytes w (n + (k * 256) * b))
    ∙ ap₂ (λ x y. x * b + y) top low
    ∙ omega (arith, split)

pub from_be_bytes-be_bytes : (w n : ℕ) → n < 256 ^ w → from_be_bytes (be_bytes w n) ≡ n
from_be_bytes-be_bytes w n h =
    ap (λ x. from_be_bytes (be_bytes w x)) (omega arith) ∙ from_be_bytes_above w n 0 h
