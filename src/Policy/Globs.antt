-- ===== src/Policy/Globs.antt =====
-- `glob_matches_inner` against a description of what a glob means.
use nodalmerge.Base.{
  ℕ, ◌≡◌, ◌≢◌, ◌↔◌, inl, inr, refl, ap, fun_ext, Bool, true, Bytes, List, [], ◌∷◌, ◌++◌, arith,
  ◌==◌, All, Bool-cases,
}
use nodalmerge.Policy.{
  star, slash, try_anywhere, try_segment, literal, is_empty, glob_matches_inner,
}
use nodalmerge.Policy.Patterns.{Part, parts, written, without_slashes, parts-written}

-- What a text must be to match: a byte for a literal, a run without `/` for `*`, any run for `**`.
abbrev pub Denotes : List Part → Bytes → Type 0
Denotes [] txt = txt ≡ []
Denotes (Part.one c ∷ ps) txt = (rest : Bytes) × (txt ≡ c ∷ rest) × Denotes ps rest
Denotes (Part.segment ∷ ps) txt =
    (run rest : Bytes) × (txt ≡ run ++ rest) × All (λ c. c ≢ slash) run × Denotes ps rest
Denotes (Part.anything ∷ ps) txt = (run rest : Bytes) × (txt ≡ run ++ rest) × Denotes ps rest

-- The matcher run on the parts.
runs : List Part → Bytes → Bool
runs [] txt = is_empty txt
runs (Part.one c ∷ ps) txt = literal c (runs ps) txt
runs (Part.segment ∷ ps) txt = try_segment (runs ps) txt
runs (Part.anything ∷ ps) txt = try_anywhere (runs ps) txt

-- The loops depend on the matcher of the rest only by its values.
module _ (f g : Bytes → Bool) (same : (txt : Bytes) → f txt ≡ g txt) (txt : Bytes) where
  anywhere_congr : try_anywhere f txt ≡ try_anywhere g txt
  anywhere_congr = ap (λ (h : Bytes → Bool). try_anywhere h txt) (fun_ext same)

  segment_congr : try_segment f txt ≡ try_segment g txt
  segment_congr = ap (λ (h : Bytes → Bool). try_segment h txt) (fun_ext same)

  literal_congr : (c : ℕ) → literal c f txt ≡ literal c g txt
  literal_congr c = ap (λ (h : Bytes → Bool). literal c h txt) (fun_ext same)

runs-parts : (pat txt : Bytes) → glob_matches_inner pat txt ≡ runs (parts pat) txt
unfolding glob_matches_inner parts runs
runs-parts [] txt = refl
runs-parts (c ∷ []) txt = elim (Bool-cases (c == star)) [
  | inl e ↦ rw (e, glob_matches_inner, parts) (segment_congr _ _ (runs-parts []) txt)
  | inr e ↦ rw (e, glob_matches_inner, parts) (literal_congr _ _ (runs-parts []) txt c)
]
runs-parts (c ∷ d ∷ []) txt = elim (Bool-cases (c == star)) [
  | inl e ↦ elim (Bool-cases (d == star)) [
    | inl f ↦ rw (e, f, glob_matches_inner, parts) (anywhere_congr _ _ (runs-parts []) txt)
    | inr f ↦ rw (e, f, glob_matches_inner, parts) (segment_congr _ _ (runs-parts (d ∷ [])) txt)
  ]
  | inr e ↦ rw (e, glob_matches_inner, parts) (literal_congr _ _ (runs-parts (d ∷ [])) txt c)
]
runs-parts (c ∷ d ∷ e ∷ pat) txt = elim (Bool-cases (c == star)) [
  | inl h ↦ elim (Bool-cases (d == star)) [
    | inl k ↦ elim (Bool-cases (e == slash)) [
      | inl l ↦ rw (h, k, l, glob_matches_inner, parts) (anywhere_congr _ _ (runs-parts pat) txt)
      | inr l ↦
          rw (h, k, l, glob_matches_inner, parts) (anywhere_congr _ _ (runs-parts (e ∷ pat)) txt)
    ]
    | inr k ↦
        rw (h, k, glob_matches_inner, parts) (segment_congr _ _ (runs-parts (d ∷ e ∷ pat)) txt)
  ]
  | inr h ↦ rw (h, glob_matches_inner, parts) (literal_congr _ _ (runs-parts (d ∷ e ∷ pat)) txt c)
]

anywhere-split :
    (f : Bytes → Bool) (txt : Bytes)
    → try_anywhere f txt ≡ true
    → (run rest : Bytes) × (txt ≡ run ++ rest) × (f rest ≡ true)
unfolding try_anywhere
anywhere-split f [] h = ([], [], refl, h)
anywhere-split f (c ∷ txt) h = elim (Bool-cases (f (c ∷ txt))) [
  | inl e ↦ ([], c ∷ txt, refl, e)
  | inr e ↦
      let (run, rest, eq, m) = anywhere-split f txt (ground arith) in
      (c ∷ run, rest, ap (◌∷◌ c) eq, m)
]

pub anywhere-join :
    (f : Bytes → Bool) (run rest : Bytes) → f rest ≡ true → try_anywhere f (run ++ rest) ≡ true
unfolding try_anywhere
anywhere-join f [] [] h = h
anywhere-join f [] (c ∷ rest) h = ground arith
anywhere-join f (c ∷ run) rest h = ground (arith, anywhere-join f run rest h)

segment-split :
    (f : Bytes → Bool) (txt : Bytes)
    → try_segment f txt ≡ true
    → (run rest : Bytes) × (txt ≡ run ++ rest) × All (λ c. c ≢ slash) run × (f rest ≡ true)
unfolding try_segment
segment-split f [] h = ([], [], refl, tt, h)
segment-split f (c ∷ txt) h = elim (Bool-cases (f (c ∷ txt))) [
  | inl e ↦ ([], c ∷ txt, refl, tt, e)
  | inr e ↦
      let (run, rest, eq, clean, m) = segment-split f txt (ground arith) in
      (c ∷ run, rest, ap (◌∷◌ c) eq, (ground arith, clean), m)
]

segment-join :
    (f : Bytes → Bool) (run rest : Bytes)
    → All (λ c. c ≢ slash) run
    → f rest ≡ true
    → try_segment f (run ++ rest) ≡ true
unfolding try_segment
segment-join f [] [] clean h = h
segment-join f [] (c ∷ rest) clean h = ground arith
segment-join f (c ∷ run) rest clean h = ground (arith, segment-join f run rest clean.1 h)

runs→Denotes : (ps : List Part) (txt : Bytes) → runs ps txt ≡ true → Denotes ps txt
unfolding runs literal is_empty
runs→Denotes [] [] h = refl
runs→Denotes [] (c ∷ txt) h = ground arith
runs→Denotes (Part.one c ∷ ps) [] h = absurd (ground arith)
runs→Denotes (Part.one c ∷ ps) (b ∷ txt) h =
    (txt, ap (λ (x : ℕ). x ∷ txt) (ground arith), runs→Denotes ps txt (ground arith))
runs→Denotes (Part.segment ∷ ps) txt h =
    let (run, rest, eq, clean, m) = segment-split (runs ps) txt h in
    (run, rest, eq, clean, runs→Denotes ps rest m)
runs→Denotes (Part.anything ∷ ps) txt h =
    let (run, rest, eq, m) = anywhere-split (runs ps) txt h in
    (run, rest, eq, runs→Denotes ps rest m)

Denotes→runs : (ps : List Part) (txt : Bytes) → Denotes ps txt → runs ps txt ≡ true
unfolding runs literal is_empty
Denotes→runs [] txt h = rw h
Denotes→runs (Part.one c ∷ ps) txt (rest, eq, d) = rw eq (ground (arith, Denotes→runs ps rest d))
Denotes→runs (Part.segment ∷ ps) txt (run, rest, eq, clean, d) =
    rw eq (segment-join (runs ps) run rest clean (Denotes→runs ps rest d))
Denotes→runs (Part.anything ∷ ps) txt (run, rest, eq, d) =
    rw eq (anywhere-join (runs ps) run rest (Denotes→runs ps rest d))

-- The matcher accepts a text exactly when the pattern, without the `/` right after each `**`, describes
-- it: `*` any run without `/`, `**` any run, every other byte itself. The documentation does not except
-- that `/`, by which `**/admin` would not match `xadmin`; the matcher accepts it.
pub glob_matches_iff :
    (pat txt : Bytes)
    → (glob_matches_inner pat txt ≡ true) ↔ Denotes (written (without_slashes pat)) txt
glob_matches_iff pat txt = (
  λ h. runs→Denotes _ txt (rw (← parts-written pat, ← runs-parts pat txt) h),
  λ d. rw (runs-parts pat txt, parts-written pat) (Denotes→runs _ txt d),
)
