-- ===== src/Text/Index/Select.antt =====
-- `lower_bound` and `select_offset` of core/crdt/src/text.rs find the entry that an offset lies in.
use native.Mathlib.Nat.{pow-suc}
use nodalmerge.Base.{
  ℕ, zero, suc, ◌+◌, ◌-◌, ◌*◌, ◌^◌, ◌≤◌, ◌<◌, ◌≡◌, refl, sym, ap, ◌∙◌, false, some, none, inl, inr,
  ◌⊎◌, arith, ltb, leb, ◌==◌, Bool-cases,
}
use nodalmerge.Text.Index.{
  CountedPositionIndex, below, prefix_sum, total_len, bit_exponent, descend, lower_bound,
  select_offset,
}
use nodalmerge.Text.Index.Bits.{below-power, pow_pos}
use nodalmerge.Text.Index.Sums.{sum, IsFenwick, sum_mono}
use nodalmerge.Text.Index.Update.{prefix_sum-sum}

le_pow : (n : ℕ) → n ≤ 2 ^ n
le_pow zero = omega arith
le_pow (suc n) = omega (arith, le_pow n, pow_pos n, pow-suc 2 n)

bit_exponent_reaches : (rounds t len : ℕ) → len ≤ rounds + t → len ≤ 2 ^ bit_exponent rounds t len
unfolding bit_exponent
bit_exponent_reaches zero t len h = omega (arith, le_pow t)
bit_exponent_reaches (suc rounds) t len h = elim (Bool-cases (ltb (2 ^ t) len)) [
  | inl more ↦ rw more (bit_exponent_reaches rounds (suc t) len (omega arith))
  | inr done ↦ rw done (ground arith)
]

-- the entry that holds the target
abbrev Holds : CountedPositionIndex → ℕ → ℕ → Type 0
Holds ix target r = (r < ix.count) × (sum ix.weights r < target) × (target ≤ sum ix.weights (suc r))

descend-Holds :
    (t q : ℕ) (ix : CountedPositionIndex) (target idx : ℕ)
    → IsFenwick ix
    → idx ≡ q * 2 ^ t
    → idx ≤ ix.count
    → sum ix.weights idx < target
    → target ≤ sum ix.weights ix.count
    → ((j : ℕ) → idx + 2 ^ t ≤ j → j ≤ ix.count → target ≤ sum ix.weights j)
    → Holds ix target (descend t ix target idx (sum ix.weights idx))
unfolding descend
descend-Holds zero q ix target idx f aligned h before reach after =
    let within : idx < ix.count = elim (Bool-cases (idx == ix.count)) [
      | inl end ↦
          let e : idx ≡ ix.count = ground arith in
          let s : sum ix.weights idx ≡ sum ix.weights ix.count = ap (sum ix.weights) e in
          absurd (omega arith)
      | inr apart ↦ ground arith
    ] in
    (within, before, after (suc idx) (omega arith) (omega arith))
descend-Holds (suc t) q ix target idx f aligned h before reach after =
    let double : 2 ^ suc t ≡ 2 ^ t * 2 = pow-suc 2 t in
    let pos = pow_pos t in
    let next : ℕ = idx + 2 ^ t in
    let even : idx ≡ q * 2 * 2 ^ t = aligned ∙ ap (λ x. q * x) double ∙ omega arith in
    let range : below next ≡ idx = ap (λ x. below (x + 2 ^ t)) even ∙ below-power t q ∙ sym even in
    elim (Bool-cases (ltb next ix.fenwick_len)) [
      | inr outside ↦ rw outside (
          descend-Holds t (q * 2) ix target idx f even h before reach
            (λ j from to. absurd (ground (arith, f.has_length))))
      | inl inside ↦
          let cell : sum ix.weights idx + ix.fenwick next ≡ sum ix.weights next = omega (
            arith,
            f.holds_ranges next (omega arith) (ground (arith, f.has_length)),
            ap (sum ix.weights) range,
          ) in
          elim (Bool-cases (ltb (sum ix.weights next) target)) [
            | inl lower ↦
                rw (inside, cell, lower)
                  (descend-Holds t (q * 2 + 1) ix target next f (omega arith)
                    (ground (arith, f.has_length)) (ground arith) reach
                    (λ j from to. after j (omega arith) to))
            | inr found ↦
                rw (inside, cell, found)
                  (descend-Holds t (q * 2) ix target idx f even h before reach
                    (λ j from to. ground (arith, sum_mono ix.weights next j from)))
          ]
    ]

-- an offset within the total is found
lower_bound-Holds :
    (ix : CountedPositionIndex) (target : ℕ)
    → IsFenwick ix
    → 0 < target
    → target ≤ sum ix.weights ix.count
    → (r : ℕ) × (lower_bound ix target ≡ some r) × Holds ix target r
unfolding lower_bound sum
lower_bound-Holds ix target f pos reach =
    let t : ℕ = suc (bit_exponent ix.fenwick_len 0 ix.fenwick_len) in
    let total : prefix_sum ix ix.count ≡ sum ix.weights ix.count =
      prefix_sum-sum ix ix.count f ∙ ap (sum ix.weights) (omega arith) in
    let some_weight : (ix.count == 0) ≡ false = elim (Bool-cases (ix.count == 0)) [
      | inl empty ↦
          let e : ix.count ≡ 0 = ground arith in
          let s : sum ix.weights ix.count ≡ 0 = ap (sum ix.weights) e ∙ (unfold sum in refl) in
          absurd (omega arith)
      | inr more ↦ more
    ] in
    let positive : (target == 0) ≡ false = ground arith in
    let reached : ltb (sum ix.weights ix.count) target ≡ false = ground arith in
    let cover = bit_exponent_reaches ix.fenwick_len 0 ix.fenwick_len (omega arith) in
    let double = pow-suc 2 (bit_exponent ix.fenwick_len 0 ix.fenwick_len) in
    (
      descend t ix target 0 0,
      rw (positive, some_weight, total, reached) refl,
      descend-Holds t 0 ix target 0 f (omega arith) (omega arith) (unfold sum in omega arith) reach
          (λ j from to. absurd (omega (arith, f.has_length))),
    )

-- An offset below the total of the weights is found in the entry whose weights reach past it, with
-- what is left of it there; any other offset is refused.
pub select_offset-sum :
    (ix : CountedPositionIndex) (offset : ℕ)
    → IsFenwick ix
    → ((sum ix.weights ix.count ≤ offset) × (select_offset ix offset ≡ none))
      ⊎ ((entry : ℕ) × (rest : ℕ) × (select_offset ix offset ≡ some (entry, rest))
          × (entry < ix.count)
          × (sum ix.weights entry + rest ≡ offset)
          × (rest < ix.weights entry))
unfolding select_offset total_len
select_offset-sum ix offset f =
    let total : prefix_sum ix ix.count ≡ sum ix.weights ix.count =
      prefix_sum-sum ix ix.count f ∙ ap (sum ix.weights) (omega arith) in
    elim (Bool-cases (leb (sum ix.weights ix.count) offset)) [
      | inl outside ↦ inl (ground arith, rw (total, outside) refl)
      | inr inside ↦
          let (entry, found, (within, before, reached)) =
            lower_bound-Holds ix (offset + 1) f (omega arith) (ground arith) in
          let start : prefix_sum ix entry ≡ sum ix.weights entry =
            prefix_sum-sum ix entry f ∙ ap (sum ix.weights) (omega arith) in
          let whole : sum ix.weights (suc entry) ≡ sum ix.weights entry + ix.weights entry =
            unfold sum in refl in
          inr (
            entry,
            offset - sum ix.weights entry,
            rw (total, inside, found, start) refl,
            within,
            omega arith,
            omega arith,
          )
    ]
