-- ===== src/Tests/Text.antt =====
-- Globs, fractional indices and hexadecimal at concrete inputs.
use nodalmerge.Base.{◌≡◌, ◌↔◌, refl, true, false, Bytes, [], ◌∷◌, some, arith, bytes_cmp, bytes_lt}
use nodalmerge.Op.Hex.{hex_to_array, to_hex, hex_to_array-to_hex}
use nodalmerge.Policy.{glob_matches_inner, star, slash}
use nodalmerge.Policy.Patterns.{written, without_slashes}
use nodalmerge.Policy.Globs.{Denotes, glob_matches_iff}
use nodalmerge.Policy.Writers.{glob-double_star-slash}
use nodalmerge.FracIdx.{
  val, ch, emit, between_unbounded_above, differ, between_bounded, between_raw, between,
}
use nodalmerge.FracIdx.Between.{IsPosition, AfterLeft, BeforeRight, IsGap, between-IsPosition}

-- `a/**/c`
abbrev nested : Bytes
nested = b'a' ∷ slash ∷ star ∷ star ∷ slash ∷ b'c' ∷ []

glob_nested : glob_matches_inner nested (b'a' ∷ slash ∷ b'b' ∷ slash ∷ b'c' ∷ []) ≡ true
unfolding glob_matches_inner
glob_nested = refl

-- the separator after `**` is not asked for
glob_nested_joined : glob_matches_inner nested (b'a' ∷ slash ∷ b'b' ∷ b'c' ∷ []) ≡ true
unfolding glob_matches_inner
glob_nested_joined = refl

glob_segment_stops : glob_matches_inner (star ∷ b'c' ∷ []) (b'a' ∷ slash ∷ b'c' ∷ []) ≡ false
unfolding glob_matches_inner
glob_segment_stops = refl

glob_matches_iff_example :
    (glob_matches_inner nested (b'a' ∷ []) ≡ true)
    ↔ Denotes (written (without_slashes nested)) (b'a' ∷ [])
glob_matches_iff_example = glob_matches_iff nested (b'a' ∷ [])

only_c : glob_matches_inner (b'c' ∷ []) (b'c' ∷ []) ≡ true
unfolding glob_matches_inner
only_c = refl

glob-double_star-slash_example :
    glob_matches_inner (star ∷ star ∷ slash ∷ b'c' ∷ []) (b'x' ∷ b'c' ∷ []) ≡ true
glob-double_star-slash_example = glob-double_star-slash (b'c' ∷ []) (b'x' ∷ []) (b'c' ∷ []) only_c

between_adjacent : between (some (b'A' ∷ [])) (some (b'B' ∷ [])) ≡ some (b'A' ∷ b'V' ∷ [])
unfolding between between_raw between_bounded differ between_unbounded_above emit val ch bytes_lt
between_adjacent = refl

a-IsPosition : IsPosition (b'A' ∷ [])
unfolding val
a-IsPosition = record { base62 = ((10, refl), tt); ends_high = omega arith }

b-IsPosition : IsPosition (b'B' ∷ [])
unfolding val
b-IsPosition = record { base62 = ((11, refl), tt); ends_high = omega arith }

a_b-IsGap : IsGap (some (b'A' ∷ [])) (some (b'B' ∷ []))
unfolding bytes_cmp
a_b-IsGap = (a-IsPosition, b-IsPosition, refl)

between-IsPosition_example :
    (m : Bytes) × (between (some (b'A' ∷ [])) (some (b'B' ∷ [])) ≡ some m)
    × AfterLeft (some (b'A' ∷ [])) m
    × BeforeRight (some (b'B' ∷ [])) m
    × IsPosition m
between-IsPosition_example = between-IsPosition (some (b'A' ∷ [])) (some (b'B' ∷ [])) a_b-IsGap

hex_to_array-to_hex_example : hex_to_array 2 (to_hex (171 ∷ 7 ∷ [])) ≡ some (171 ∷ 7 ∷ [])
hex_to_array-to_hex_example = hex_to_array-to_hex (171 ∷ 7 ∷ []) (omega arith)
