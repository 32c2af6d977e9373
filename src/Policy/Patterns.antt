-- ===== src/Policy/Patterns.antt =====
-- What a glob of core/crdt/src/policy.rs is made of: as its documentation describes it, and as the matcher
-- reads it.
use nodalmerge.Base.{
  ℕ, ◌≡◌, refl, sym, ap, ◌∙◌, true, false, Bytes, List, [], ◌∷◌, ◌==◌, Bool-cases, inl, inr,
}
use nodalmerge.Policy.{star, slash}

-- A pattern as the documentation of core/crdt/src/policy.rs describes it: `*` is any run without `/`, `**`
-- any run, and every other byte stands for itself.
pub data Part : Type 0 where
  one : ℕ → Part
  segment : Part
  anything : Part

unfoldable pub written : Bytes → List Part
written [] = []
written (c ∷ []) = elim (c == star) [ true ↦ Part.segment ∷ [] | false ↦ Part.one c ∷ [] ]
written (c ∷ d ∷ pat) = elim (c == star) [
  | true ↦ elim (d == star) [
    | true ↦ Part.anything ∷ written pat
    | false ↦ Part.segment ∷ written (d ∷ pat)
  ]
  | false ↦ Part.one c ∷ written (d ∷ pat)
]

-- The pattern without the one `/` that stands right after a `**`: the matcher skips it, which the
-- documentation does not say.
unfoldable pub without_slashes : Bytes → Bytes
without_slashes [] = []
without_slashes (c ∷ []) = c ∷ []
without_slashes (c ∷ d ∷ []) = c ∷ d ∷ []
without_slashes (c ∷ d ∷ e ∷ pat) = elim (c == star) [
  | true ↦ elim (d == star) [
    | true ↦ elim (e == slash) [
      | true ↦ c ∷ d ∷ without_slashes pat
      | false ↦ c ∷ d ∷ without_slashes (e ∷ pat)
    ]
    | false ↦ c ∷ without_slashes (d ∷ e ∷ pat)
  ]
  | false ↦ c ∷ without_slashes (d ∷ e ∷ pat)
]

-- both at once, in the matcher's own cases
unfoldable pub parts : Bytes → List Part
parts [] = []
parts (c ∷ []) = elim (c == star) [ true ↦ Part.segment ∷ [] | false ↦ Part.one c ∷ [] ]
parts (c ∷ d ∷ []) = elim (c == star) [
  | true ↦ elim (d == star) [ true ↦ Part.anything ∷ [] | false ↦ Part.segment ∷ parts (d ∷ []) ]
  | false ↦ Part.one c ∷ parts (d ∷ [])
]
parts (c ∷ d ∷ e ∷ pat) = elim (c == star) [
  | true ↦ elim (d == star) [
    | true ↦ elim (e == slash) [
      | true ↦ Part.anything ∷ parts pat
      | false ↦ Part.anything ∷ parts (e ∷ pat)
    ]
    | false ↦ Part.segment ∷ parts (d ∷ e ∷ pat)
  ]
  | false ↦ Part.one c ∷ parts (d ∷ e ∷ pat)
]

written-one :
    (c : ℕ) (pat : Bytes) → (c == star) ≡ false → written (c ∷ pat) ≡ Part.one c ∷ written pat
unfolding written
written-one c [] h = rw (h, written) refl
written-one c (d ∷ pat) h = rw (h, written) refl

module _ (c d : ℕ) (pat : Bytes) (h : (c == star) ≡ true) where
  written-segment :
      (rest : Bytes)
      → pat ≡ d ∷ rest
      → (d == star) ≡ false
      → written (c ∷ pat) ≡ Part.segment ∷ written pat
  unfolding written
  written-segment rest e k = rw (e, h, k, written) refl

  written-anything : (d == star) ≡ true → written (c ∷ d ∷ pat) ≡ Part.anything ∷ written pat
  unfolding written
  written-anything k = rw (h, k, written) refl

without_slashes-plain :
    (d e : ℕ) (pat : Bytes)
    → (d == star) ≡ false
    → without_slashes (d ∷ e ∷ pat) ≡ d ∷ without_slashes (e ∷ pat)
unfolding without_slashes
without_slashes-plain d e [] h = refl
without_slashes-plain d e (c ∷ pat) h = rw (h, without_slashes) refl

pub parts-written : (pat : Bytes) → parts pat ≡ written (without_slashes pat)
unfolding parts written without_slashes
parts-written [] = refl
parts-written (c ∷ []) = refl
parts-written (c ∷ d ∷ []) = elim (Bool-cases (c == star)) [
  | inl e ↦ elim (Bool-cases (d == star)) [
    | inl f ↦ rw (e, f, parts, without_slashes, written) refl
    | inr f ↦ rw (e, f, parts, without_slashes, written) refl
  ]
  | inr e ↦ rw (e, parts, without_slashes, written) refl
]
parts-written (c ∷ d ∷ e ∷ pat) = elim (Bool-cases (c == star)) [
  | inl h ↦ elim (Bool-cases (d == star)) [
    | inl k ↦ elim (Bool-cases (e == slash)) [
      | inl l ↦
          rw (h, k, l, parts, without_slashes)
            (ap (◌∷◌ Part.anything) (parts-written pat) ∙ sym (written-anything c d _ h k))
      | inr l ↦
          rw (h, k, l, parts, without_slashes)
            (ap (◌∷◌ Part.anything) (parts-written (e ∷ pat)) ∙ sym (written-anything c d _ h k))
    ]
    | inr k ↦
        rw (h, k, parts, without_slashes)
          (ap (◌∷◌ Part.segment) (parts-written (d ∷ e ∷ pat))
            ∙ sym (written-segment c d _ h _ (without_slashes-plain d e pat k) k))
  ]
  | inr h ↦
      rw (h, parts, without_slashes)
        (ap (◌∷◌ (Part.one c)) (parts-written (d ∷ e ∷ pat)) ∙ sym (written-one c _ h))
]
