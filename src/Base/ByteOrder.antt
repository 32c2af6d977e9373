-- ===== src/Base/ByteOrder.antt =====
-- Byte strings: the bytes of a Rust `String`, and the derived comparisons on them.
use Prim.Native.Nat.{ℕ, compare, Ordering}
use Prim.Native.Nat.Ordering.{lt, eq, gt}
use mathlib.Core.Path.{◌≡◌, refl}
use mathlib.Core.Logic.{◌↔◌}
use mathlib.Core.Bool.{Bool, true, false, ◌&&◌}
use mathlib.Core.List.{List, [], ◌∷◌}
use native.Mathlib.Omega.{arith}
use nodalmerge.Base.Tests.{◌==◌}

abbrev pub Bytes : Type 0
Bytes = List ℕ

-- `==` on strings and byte slices
unfoldable pub bytes_eq : Bytes → Bytes → Bool
bytes_eq [] [] = true
bytes_eq [] (b ∷ bs) = false
bytes_eq (a ∷ as') [] = false
bytes_eq (a ∷ as') (b ∷ bs) = a == b && bytes_eq as' bs

pub bytes_eq→eq : (s t : Bytes) → bytes_eq s t ≡ true → s ≡ t
unfolding bytes_eq
bytes_eq→eq [] [] h = refl
bytes_eq→eq [] (b ∷ bs) h = ground arith
bytes_eq→eq (a ∷ as') [] h = ground arith
bytes_eq→eq (a ∷ as') (b ∷ bs) h = ground (arith, bytes_eq→eq as' bs)

pub bytes_eq_refl : (s : Bytes) → bytes_eq s s ≡ true
unfolding bytes_eq
bytes_eq_refl [] = refl
bytes_eq_refl (a ∷ as') = ground (arith, bytes_eq_refl as')

pub eq→bytes_eq : (s t : Bytes) → s ≡ t → bytes_eq s t ≡ true
eq→bytes_eq s t e = ground (arith, bytes_eq_refl s)

pub bytes_eq_iff : (s t : Bytes) → (bytes_eq s t ≡ true) ↔ (s ≡ t)
bytes_eq_iff s t = (bytes_eq→eq s t, eq→bytes_eq s t)

abbrev then : Ordering → Ordering → Ordering
then eq second = second
then first _ = first

-- `cmp` on strings and byte slices: lexicographic, a proper prefix first
unfoldable pub bytes_cmp : Bytes → Bytes → Ordering
bytes_cmp [] [] = eq
bytes_cmp [] (b ∷ bs) = lt
bytes_cmp (a ∷ as') [] = gt
bytes_cmp (a ∷ as') (b ∷ bs) = then (compare a b) (bytes_cmp as' bs)

-- `s < t` as a test
unfoldable pub bytes_lt : Bytes → Bytes → Bool
unfolding bytes_cmp
bytes_lt s t = elim (bytes_cmp s t) [ lt ↦ true | _ ↦ false ]

pub bytes_cmp_refl : (s : Bytes) → bytes_cmp s s ≡ eq
unfolding bytes_cmp
bytes_cmp_refl [] = refl
bytes_cmp_refl (a ∷ as') = ground (arith, bytes_cmp_refl as')

pub eq_of_bytes_cmp : (s t : Bytes) → bytes_cmp s t ≡ eq → s ≡ t
unfolding bytes_cmp
eq_of_bytes_cmp [] [] h = refl
eq_of_bytes_cmp [] (b ∷ bs) h = ground arith
eq_of_bytes_cmp (a ∷ as') [] h = ground arith
eq_of_bytes_cmp (a ∷ as') (b ∷ bs) h = ground (arith, eq_of_bytes_cmp as' bs)

pub bytes_cmp-lt_of_gt : (s t : Bytes) → bytes_cmp s t ≡ gt → bytes_cmp t s ≡ lt
unfolding bytes_cmp
bytes_cmp-lt_of_gt [] [] h = ground arith
bytes_cmp-lt_of_gt [] (b ∷ bs) h = ground arith
bytes_cmp-lt_of_gt (a ∷ as') [] h = refl
bytes_cmp-lt_of_gt (a ∷ as') (b ∷ bs) h = ground (arith, bytes_cmp-lt_of_gt as' bs)

pub bytes_cmp-gt_of_lt : (s t : Bytes) → bytes_cmp s t ≡ lt → bytes_cmp t s ≡ gt
unfolding bytes_cmp
bytes_cmp-gt_of_lt [] [] h = ground arith
bytes_cmp-gt_of_lt [] (b ∷ bs) h = refl
bytes_cmp-gt_of_lt (a ∷ as') [] h = ground arith
bytes_cmp-gt_of_lt (a ∷ as') (b ∷ bs) h = ground (arith, bytes_cmp-gt_of_lt as' bs)

pub bytes_cmp_trans : (s t u : Bytes) → bytes_cmp s t ≡ lt → bytes_cmp t u ≡ lt → bytes_cmp s u ≡ lt
unfolding bytes_cmp
bytes_cmp_trans [] [] u h k = ground arith
bytes_cmp_trans [] (b ∷ bs) [] h k = ground arith
bytes_cmp_trans [] (b ∷ bs) (c ∷ cs) h k = refl
bytes_cmp_trans (a ∷ as') [] u h k = ground arith
bytes_cmp_trans (a ∷ as') (b ∷ bs) [] h k = ground arith
bytes_cmp_trans (a ∷ as') (b ∷ bs) (c ∷ cs) h k = ground (arith, bytes_cmp_trans as' bs cs)
