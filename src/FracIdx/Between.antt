-- ===== src/FracIdx/Between.antt =====
-- `between` is total on positions and lands strictly between its ends.
use Prim.Native.Nat.Ordering.{lt}
use nodalmerge.Base.{
  ℕ, ◌+◌, ◌-◌, ◌/◌, ◌<◌, ◌≡◌, refl, ap, subst, ◌⊎◌, inl, inr, true, false, Bytes, [], ◌∷◌, Option,
  none, some, arith, ltb, leb, ◌==◌, All, bytes_cmp, bytes_lt, Bool-cases,
}
use nodalmerge.FracIdx.{
  val, ch, emit, between_unbounded_above, differ, between_bounded, between_raw, between, first,
}
use nodalmerge.FracIdx.Digits.{IsDigit, val_lt, ch-val, val-ch, ch_mono, val_mono, lt_of_val_lt}

-- every byte is in the alphabet
abbrev pub IsBase62 : Bytes → Type 0
IsBase62 s = All IsDigit s

-- the last byte is above `'0'`, and there is one
abbrev pub EndsHigh : Bytes → Type 0
EndsHigh [] = ⊥
EndsHigh (b ∷ []) = b'0' < b
EndsHigh (b ∷ c ∷ s) = EndsHigh (c ∷ s)

pub record IsPosition (s : Bytes) : Type 0 where
  pub base62 : IsBase62 s
  pub ends_high : EndsHigh s

infix 50 ◌≺◌
abbrev pub ◌≺◌ : Bytes → Bytes → Type 0
◌≺◌ s t = bytes_cmp s t ≡ lt

ch-zero : ch 0 ≡ b'0'
unfolding ch
ch-zero = refl

single-IsPosition : (d : ℕ) → 0 < d → d < 62 → IsPosition (ch d ∷ [])
single-IsPosition d pos small = record {
  base62 = ((d, val-ch d small), tt);
  ends_high = omega (arith, ch_mono 0 d pos small, ch-zero);
}

EndsHigh-cons : (b : ℕ) (s : Bytes) → EndsHigh s → EndsHigh (b ∷ s)
EndsHigh-cons b [] h = absurd h
EndsHigh-cons b (c ∷ s) h = h

EndsHigh-tail : (b : ℕ) (s t : Bytes) → s ≺ t → EndsHigh (b ∷ t) → EndsHigh t
unfolding bytes_cmp
EndsHigh-tail b [] [] h e = ground arith
EndsHigh-tail b (a ∷ s) [] h e = ground arith
EndsHigh-tail b s (c ∷ t) h e = e

cons-IsPosition : (b : ℕ) (s : Bytes) → IsDigit b → IsPosition s → IsPosition (b ∷ s)
cons-IsPosition b s d p = record {
  base62 = (d, p.base62);
  ends_high = EndsHigh-cons b s p.ends_high;
}

nil-≺ : (s : Bytes) → IsPosition s → [] ≺ s
unfolding bytes_cmp
nil-≺ [] p = absurd p.ends_high
nil-≺ (b ∷ s) p = refl

-- heads decide, or equal heads leave it to the tails
cons-≺ : (a b : ℕ) (s t : Bytes) → a < b → (a ∷ s) ≺ (b ∷ t)
unfolding bytes_cmp
cons-≺ a b s t h = ground arith

same-≺ : (a : ℕ) (s t : Bytes) → s ≺ t → (a ∷ s) ≺ (a ∷ t)
unfolding bytes_cmp
same-≺ a s t h = ground arith

-- what the loop above the left end promises
abbrev Above : Bytes → Option Bytes → Type 0
Above l r = (m : Bytes) × (r ≡ some m) × (l ≺ m) × IsPosition m

above : (l : Bytes) → IsBase62 l → Above l (between_unbounded_above l)
unfolding between_unbounded_above emit
above [] h = (ch 31 ∷ [], refl, nil-≺ _ high, high)
  where
    high : IsPosition (ch 31 ∷ [])
    high = single-IsPosition 31 (omega arith) (omega arith)
above (b ∷ l) ((d, v), h) = elim (Bool-cases (ltb d 61)) [
  | inl small ↦
      let up : ch d < ch ((d + 62) / 2) = ch_mono d ((d + 62) / 2) (ground arith) (ground arith) in
      (
        ch ((d + 62) / 2) ∷ [],
        rw (v, small, between_unbounded_above),
        cons-≺ b (ch ((d + 62) / 2)) l [] (rw (ch-val b d v) at up),
        single-IsPosition ((d + 62) / 2) (omega arith) (ground arith),
      )
  | inr top ↦
      let (m, eq, less, p) = above l h in
      (
        b ∷ m,
        rw (v, top, between_unbounded_above) (rw (eq, emit)),
        same-≺ b l m less,
        cons-IsPosition b m (d, v) p,
      )
]

-- what a step of the bounded loop promises
abbrev pub Inside : Bytes → Bytes → Option Bytes → Type 0
Inside l r o = (m : Bytes) × (o ≡ some m) × (l ≺ m) × (m ≺ r) × IsPosition m

-- one common byte in front of the rest of the loop
push-Inside :
    (b : ℕ) (l r : Bytes) (o : Option Bytes)
    → IsDigit b
    → Inside l r o
    → Inside (b ∷ l) (b ∷ r) (emit b o)
unfolding emit
push-Inside b l r o d (m, eq, low, high, p) =
    (b ∷ m, rw eq, same-≺ b l m low, same-≺ b m r high, cons-IsPosition b m d p)

-- a right end that starts with `'0'` goes on after it
EndsHigh-zero : (b : ℕ) (r : Bytes) → val b ≡ some 0 → EndsHigh (b ∷ r) → EndsHigh r
unfolding val
EndsHigh-zero b [] v e = absurd (ground arith)
EndsHigh-zero b (c ∷ r) v e = e

module _ (b y : ℕ) (r : Bytes) (v : val b ≡ some y) where
  nil_wide : leb 2 y ≡ true → Inside [] (b ∷ r) (between_bounded [] (b ∷ r))
  unfolding between_bounded
  nil_wide wide =
      let small : y < 62 = val_lt b y v in
      let p : IsPosition (ch (y / 2) ∷ []) =
        single-IsPosition (y / 2) (ground arith) (omega arith) in
      let down : ch (y / 2) < ch y = ch_mono (y / 2) y (ground arith) small in
      (
        ch (y / 2) ∷ [],
        rw (v, wide, between_bounded),
        nil-≺ _ p,
        cons-≺ (ch (y / 2)) b [] r (rw (ch-val b y v) at down),
        p,
      )

  nil_one : leb 2 y ≡ false → (y == 0) ≡ false → Inside [] (b ∷ r) (between_bounded [] (b ∷ r))
  unfolding between_bounded
  nil_one narrow nonzero =
      let p : IsPosition (ch 0 ∷ ch 31 ∷ []) =
        cons-IsPosition (ch 0) _ (0, val-ch 0 (omega arith))
          (single-IsPosition 31 (omega arith) (omega arith)) in
      let down : ch 0 < ch y = ch_mono 0 y (ground arith) (val_lt b y v) in
      (
        ch 0 ∷ ch 31 ∷ [],
        rw (v, narrow, nonzero, between_bounded),
        nil-≺ _ p,
        cons-≺ (ch 0) b (ch 31 ∷ []) r (rw (ch-val b y v) at down),
        p,
      )

  nil_zero :
      (y == 0) ≡ true
      → Inside [] r (between_bounded [] r)
      → Inside [] (b ∷ r) (between_bounded [] (b ∷ r))
  unfolding between_bounded emit
  nil_zero zero_digit (m, eq, low, high, p) =
      let is_zero : y ≡ 0 = ground arith in
      let v0 : val b ≡ some 0 = rw is_zero at v in
      let q : IsPosition (b ∷ m) = cons-IsPosition b m (y, v) p in
      (
        b ∷ m,
        rw (v0, between_bounded) (rw (eq, emit) (ap (λ c. some (c ∷ m)) (ch-val b 0 v0))),
        nil-≺ _ q,
        same-≺ b m r high,
        q,
      )

Inside-nil : (r : Bytes) → IsPosition r → Inside [] r (between_bounded [] r)
Inside-nil [] p = absurd p.ends_high
Inside-nil (b ∷ r) p =
    let y : ℕ = p.base62.0.0 in
    let v : val b ≡ some y = p.base62.0.1 in
    elim (Bool-cases (leb 2 y)) [
      | inl wide ↦ nil_wide b y r v wide
      | inr narrow ↦ elim (Bool-cases (y == 0)) [
        | inr nonzero ↦ nil_one b y r v narrow nonzero
        | inl z ↦
            let is_zero : y ≡ 0 = ground arith in
            let high : EndsHigh r = EndsHigh-zero b r (rw is_zero at v) p.ends_high in
            nil_zero b y r v z (Inside-nil r (record { base62 = p.base62.1; ends_high = high }))
      ]
    ]

module _ (a b x y : ℕ) (l r : Bytes) (v : val a ≡ some x) (w : val b ≡ some y) (less : x < y)
    (h : IsBase62 l) where
  differ_wide : leb 2 (y - x) ≡ true → Inside (a ∷ l) (b ∷ r) (differ x y l)
  unfolding differ
  differ_wide wide =
      let small : y < 62 = val_lt b y w in
      let mid : ℕ = (x + y) / 2 in
      let up : ch x < ch mid = ch_mono x mid (ground arith) (ground arith) in
      let down : ch mid < ch y = ch_mono mid y (ground arith) small in
      (
        ch mid ∷ [],
        ground arith,
        cons-≺ a (ch mid) l [] (rw (ch-val a x v) at up),
        cons-≺ (ch mid) b [] r (rw (ch-val b y w) at down),
        single-IsPosition mid (ground arith) (ground arith),
      )

  differ_near : leb 2 (y - x) ≡ false → Inside (a ∷ l) (b ∷ r) (differ x y l)
  unfolding differ emit
  differ_near near =
      let (m, eq, low, p) = above l h in
      let first_less : a < b = lt_of_val_lt a b x y v w less in
      (
        a ∷ m,
        ground (arith, ch-val a x v),
        same-≺ a l m low,
        cons-≺ a b m r first_less,
        cons-IsPosition a m (x, v) p,
      )

  Inside-differ : Inside (a ∷ l) (b ∷ r) (differ x y l)
  Inside-differ = elim (Bool-cases (leb 2 (y - x))) [
    | inl wide ↦ differ_wide wide
    | inr near ↦ differ_near near
  ]

-- what an order between two strings says of their heads
heads : (a b : ℕ) (l r : Bytes) → (a ∷ l) ≺ (b ∷ r) → (a < b) ⊎ ((a ≡ b) × (l ≺ r))
unfolding bytes_cmp
heads a b l r h = ground arith

val_eq : (a x y : ℕ) → val a ≡ some x → val a ≡ some y → x ≡ y
val_eq a x y h k = ground arith

module _ (a b x y : ℕ) (l r : Bytes) (v : val a ≡ some x) (w : val b ≡ some y) where
  step_differ :
      x < y
      → Inside (a ∷ l) (b ∷ r) (differ x y l)
      → Inside (a ∷ l) (b ∷ r) (between_bounded (a ∷ l) (b ∷ r))
  unfolding between_bounded
  step_differ less i = rw (v, w, between_bounded) (rw (differ-test) i)
    where
      differ-test : (x == y) ≡ false
      differ-test = ground arith

  step_same :
      a ≡ b
      → Inside l r (between_bounded l r)
      → Inside (a ∷ l) (b ∷ r) (between_bounded (a ∷ l) (b ∷ r))
  unfolding between_bounded
  step_same same i =
      let test : (x == y) ≡ true = ground (arith, val_eq b x y (rw same at v) w) in
      let rest : Option Bytes = between_bounded l r in
      let pushed : Inside (a ∷ l) (b ∷ r) (emit a rest) =
        subst (λ c. Inside (a ∷ l) (c ∷ r) (emit a rest)) same (push-Inside a l r rest (x, v) i) in
      rw (v, w, between_bounded) (rw test (rw (ch-val a x v) pushed))

inside : (l r : Bytes) → IsBase62 l → IsPosition r → l ≺ r → Inside l r (between_bounded l r)
inside [] r h p less = Inside-nil r p
inside (a ∷ l) [] h p less = absurd p.ends_high
inside (a ∷ l) (b ∷ r) ((x, v), h) p less =
    let y : ℕ = p.base62.0.0 in
    let w : val b ≡ some y = p.base62.0.1 in
    elim (heads a b l r less) [
      | inl first_less ↦
          let lt' : x < y = val_mono a b x y v w first_less in
          step_differ a b x y l r v w lt' (Inside-differ a b x y l r v w lt' h)
      | inr (same, rest) ↦
          let q : IsPosition r = record {
            base62 = p.base62.1;
            ends_high = EndsHigh-tail b l r rest p.ends_high;
          } in
          step_same a b x y l r v w same (inside l r h q rest)
    ]

-- the ends are positions, and a given left end is below a given right end
abbrev pub IsGap : Option Bytes → Option Bytes → Type 0
IsGap none none = Unit
IsGap none (some r) = IsPosition r
IsGap (some l) none = IsPosition l
IsGap (some l) (some r) = IsPosition l × IsPosition r × l ≺ r

abbrev pub AfterLeft : Option Bytes → Bytes → Type 0
AfterLeft none m = Unit
AfterLeft (some l) m = l ≺ m

abbrev pub BeforeRight : Option Bytes → Bytes → Type 0
BeforeRight none m = Unit
BeforeRight (some r) m = m ≺ r

lt-test : (s t : Bytes) → s ≺ t → bytes_lt s t ≡ true
unfolding bytes_lt
lt-test s t h = rw (h, bytes_lt)

-- Between two positions, or beyond one, or with no ends, `between` does not panic: it returns a
-- position that lies strictly between the ends, which itself is a base-62 string whose last digit
-- is not `0`.
pub between-IsPosition :
    (l r : Option Bytes)
    → IsGap l r
    → (m : Bytes) × (between l r ≡ some m) × AfterLeft l m × BeforeRight r m × IsPosition m
unfolding between between_raw
between-IsPosition none none g = let (m, eq, low, p) = above [] tt in (m, eq, tt, tt, p)
between-IsPosition none (some r) g =
    let (m, eq, low, high, p) = inside [] r tt g (nil-≺ r g) in (m, eq, tt, high, p)
between-IsPosition (some l) none g = let (m, eq, low, p) = above l g.base62 in (m, eq, low, tt, p)
between-IsPosition (some l) (some r) (pl, pr, less) =
    let (m, eq, low, high, p) = inside l r pl.base62 pr less in
    (m, rw (lt-test l r less) eq, low, high, p)

-- The position given to the first item of a list is one.
pub first-IsPosition : IsPosition first
unfolding first
first-IsPosition = single-IsPosition 31 (omega arith) (omega arith)
