-- ===== src/FracIdx.antt =====
-- core/crdt/src/list.rs: fractional indices, base-62 strings over `0..9 A..Z a..z`.
-- `none` is a panic of the source.
pub mod Digits
pub mod Between
use nodalmerge.Base.{
  ℕ, suc, ◌+◌, ◌-◌, ◌/◌, Bool, true, false, ◌&&◌, Bytes, [], ◌∷◌, Option, none, some, ltb, leb,
  ◌==◌, if◌then◌else◌, bytes_lt,
}

abbrev pub radix : ℕ
radix = 62

-- the digit that a byte stands for
unfoldable pub val : ℕ → Option ℕ
val c =
    if leb b'0' c && leb c b'9'
    then some (c - b'0')
    else if leb b'A' c && leb c b'Z'
    then some (c - b'A' + 10)
    else if leb b'a' c && leb c b'z'
    then some (c - b'a' + 36)
    else none

-- the table `ALPHABET`, for a digit below the radix
unfoldable pub ch : ℕ → ℕ
ch v = if ltb v 10 then v + b'0' else if ltb v 36 then v - 10 + b'A' else v - 36 + b'a'

-- pushes a byte before what the rest of the loop emits
unfoldable pub emit : ℕ → Option Bytes → Option Bytes
emit c none = none
emit c (some out) = some (c ∷ out)

-- `"V"`
unfoldable pub first : Bytes
first = ch 31 ∷ []

unfoldable pub between_unbounded_above : Bytes → Option Bytes
between_unbounded_above [] = some (ch (radix / 2) ∷ [])
between_unbounded_above (b ∷ left) = elim (val b) [
  | none ↦ none
  | some d ↦ elim (ltb d (radix - 1)) [
    | true ↦ some (ch ((d + radix) / 2) ∷ [])
    | false ↦ emit b (between_unbounded_above left)
  ]
]

-- the branch of the first differing digits
unfoldable pub differ : ℕ → ℕ → Bytes → Option Bytes
differ la rb left =
    if ltb rb la
    then none
    else if leb 2 (rb - la)
    then some (ch ((la + rb) / 2) ∷ [])
    else emit (ch la) (between_unbounded_above left)

unfoldable pub between_bounded : Bytes → Bytes → Option Bytes
between_bounded [] [] = none
between_bounded (a ∷ left) [] = none
between_bounded [] (b ∷ right) = elim (val b) [
  | none ↦ none
  | some rb ↦ elim (leb 2 rb) [
    | true ↦ some (ch (rb / 2) ∷ [])
    | false ↦ elim (rb == 0) [
      | true ↦ emit (ch 0) (between_bounded [] right)
      | false ↦ some (ch 0 ∷ ch (radix / 2) ∷ [])
    ]
  ]
]
between_bounded (a ∷ left) (b ∷ right) = elim (val a) [
  | none ↦ none
  | some la ↦ elim (val b) [
    | none ↦ none
    | some rb ↦ elim (la == rb) [
      | true ↦ emit (ch la) (between_bounded left right)
      | false ↦ differ la rb left
    ]
  ]
]

unfoldable pub between_raw : Bytes → Option Bytes → Option Bytes
between_raw left none = between_unbounded_above left
between_raw left (some right) = between_bounded left right

-- the assertion `left < right` comes first
unfoldable pub between : Option Bytes → Option Bytes → Option Bytes
between none right = between_raw [] right
between (some l) none = between_raw l none
between (some l) (some r) = if bytes_lt l r then between_raw l (some r) else none

unfoldable pub before : Bytes → Option Bytes
before right = between none (some right)

unfoldable pub after : Bytes → Option Bytes
after left = between (some left) none
