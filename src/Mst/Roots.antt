-- ===== src/Mst/Roots.antt =====
-- The root hash of the Merkle search tree of core/crdt/src/mst.rs tells sets of ids apart, as far as its
-- hashes tell their inputs apart.
use Prim.Native.Nat.{compare}
use nodalmerge.Base.{
  ℕ, zero, suc, ◌≡◌, ◌≢◌, refl, sym, ap, ◌∙◌, true, false, List, [], ◌∷◌, ◌++◌, Option, none, some,
  inl, inr, arith, ◌==◌, if◌then◌else◌, length, contains, Bool-cases, All,
}
use nodalmerge.Base.Sort.{sort}
use nodalmerge.Base.Members.{contains-sort}
use nodalmerge.Mst.{
  MstHash, Nodes, nibble_at, nibbles, group_of, leaf, build_groups, build_recursive, from_ids,
  root_hash,
}
use nodalmerge.Mst.Paths.{root_hash-build_recursive}
use nodalmerge.Mst.Keys.{contains-group_of, nibble_bound, contains-nibbles, length-zero-contains}

-- No two inputs have one hash, and none has the hash of the empty tree. An absent child is hashed like
-- a zero, so this is only asked of children that are not zero.
pub record IsCollisionFree (h : MstHash) : Type 0 where
  pub leaf_injective : (a b : List ℕ) → h.leaf_hash a ≡ h.leaf_hash b → a ≡ b
  pub internal_injective :
      (a b : List (Option ℕ))
      → All (λ c. c ≢ some 0) a
      → All (λ c. c ≢ some 0) b
      → h.internal_hash a ≡ h.internal_hash b
      → a ≡ b
  pub leaf-internal : (a : List ℕ) (b : List (Option ℕ)) → h.leaf_hash a ≢ h.internal_hash b
  pub leaf_positive : (a : List ℕ) → h.leaf_hash a ≢ 0
  pub internal_positive : (b : List (Option ℕ)) → h.internal_hash b ≢ 0

module _ (h : MstHash) (free : IsCollisionFree h) where
  open free use {
    leaf_injective, internal_injective, leaf-internal, leaf_positive, internal_positive,
  }

  build_recursive-positive :
      (left : ℕ) (path ids : List ℕ) → (build_recursive h left path ids).0 ≢ 0
  unfolding build_recursive leaf
  build_recursive-positive zero path ids = leaf_positive ids
  build_recursive-positive (suc left) path ids = elim (Bool-cases (length ids == 1)) [
    | inl single ↦ rw single (leaf_positive ids)
    | inr more ↦ rw more (internal_positive _)
  ]

  children-positive :
      (left : ℕ) (path ids ns : List ℕ)
      → All (λ c. c ≢ some 0) (build_groups h (build_recursive h left) path ids ns).0
  unfolding build_groups
  children-positive left path ids [] = tt
  children-positive left path ids (n ∷ ns) =
      let rest = children-positive left path ids ns in
      let group = group_of (length path) n ids in
      elim (Bool-cases (length group == 0)) [
        | inl empty ↦ rw empty (λ e. absurd (ground arith), rest)
        | inr full ↦
            rw full
              (λ e. build_recursive-positive left (path ++ n ∷ []) group (ground (arith, e)), rest)
      ]

  -- the child for one group
  child_of : (List ℕ → List ℕ → ℕ × Nodes) → List ℕ → List ℕ → Option ℕ
  child_of build path group = if length group == 0 then none else some (build path group).0

  build_groups-cons :
      (build : List ℕ → List ℕ → ℕ × Nodes) (path ids ns : List ℕ) (n : ℕ)
      → (build_groups h build path ids (n ∷ ns)).0
        ≡ child_of build (path ++ n ∷ []) (group_of (length path) n ids)
          ∷ (build_groups h build path ids ns).0
  unfolding build_groups child_of
  build_groups-cons build path ids ns n =
      elim (Bool-cases (length (group_of (length path) n ids) == 0)) [
        | inl empty ↦ rw empty refl
        | inr full ↦ rw full refl
      ]

  module _ (build : List ℕ → List ℕ → ℕ × Nodes)
      (same : (path ids ids' : List ℕ) (x : ℕ)
        → (build path ids).0 ≡ (build path ids').0
        → contains ids x ≡ contains ids' x) where
    child_of-same :
        (path group group' : List ℕ) (x : ℕ)
        → child_of build path group ≡ child_of build path group'
        → contains group x ≡ contains group' x
    unfolding child_of
    child_of-same path group group' x e = elim (Bool-cases (length group == 0)) [
      | inl empty ↦ elim (Bool-cases (length group' == 0)) [
        | inl empty' ↦
            length-zero-contains group x empty ∙ sym (length-zero-contains group' x empty')
        | inr full' ↦ absurd (ground (arith, e, empty, full'))
      ]
      | inr full ↦ elim (Bool-cases (length group' == 0)) [
        | inl empty' ↦ absurd (ground (arith, e, full, empty'))
        | inr full' ↦ same path group group' x (ground (arith, e, full, full'))
      ]
    ]

    groups-same :
        (path ids ids' ns : List ℕ) (n x : ℕ)
        → (build_groups h build path ids ns).0 ≡ (build_groups h build path ids' ns).0
        → contains ns n ≡ true
        → contains (group_of (length path) n ids) x ≡ contains (group_of (length path) n ids') x
    unfolding contains
    groups-same path ids ids' [] n x e there = absurd (ground arith)
    groups-same path ids ids' (m ∷ ns) n x e there =
        let both =
          sym (build_groups-cons build path ids ns m)
          ∙ e
          ∙ build_groups-cons build path ids' ns m in
        elim (Bool-cases (m == n)) [
          | inl here ↦
              ap (λ k. contains (group_of (length path) k ids) x) (sym (eq_of here))
              ∙ child_of-same (path ++ m ∷ []) (group_of (length path) m ids)
                  (group_of (length path) m ids') x (ground (arith, both))
              ∙ ap (λ k. contains (group_of (length path) k ids') x) (eq_of here)
          | inr later ↦
              groups-same path ids ids' ns n x (ground (arith, both)) (ground (arith, there, later))
        ]
      where
        eq_of : (m == n) ≡ true → m ≡ n
        eq_of here = ground arith

  -- ids of one nibble are told apart by its group
  nibble-same :
      (depth : ℕ) (ids ids' : List ℕ) (x : ℕ)
      → contains (group_of depth (nibble_at x depth) ids) x
        ≡ contains (group_of depth (nibble_at x depth) ids') x
      → contains ids x ≡ contains ids' x
  nibble-same depth ids ids' x e = ground (
    arith,
    e,
    contains-group_of depth (nibble_at x depth) ids x,
    contains-group_of depth (nibble_at x depth) ids' x,
  )

  build_recursive-same :
      (left : ℕ) (path ids ids' : List ℕ) (x : ℕ)
      → (build_recursive h left path ids).0 ≡ (build_recursive h left path ids').0
      → contains ids x ≡ contains ids' x
  unfolding build_recursive leaf
  build_recursive-same zero path ids ids' x e = ap (λ l. contains l x) (leaf_injective ids ids' e)
  build_recursive-same (suc left) path ids ids' x e =
      let inner = (build_groups h (build_recursive h left) path ids nibbles).0 in
      let inner' = (build_groups h (build_recursive h left) path ids' nibbles).0 in
      elim (Bool-cases (length ids == 1)) [
        | inl single ↦ elim (Bool-cases (length ids' == 1)) [
          | inl single' ↦
              ap (λ l. contains l x) (leaf_injective ids ids' (ground (arith, e, single, single')))
          | inr more' ↦ absurd (leaf-internal ids inner' (ground (arith, e, single, more')))
        ]
        | inr more ↦ elim (Bool-cases (length ids' == 1)) [
          | inl single' ↦ absurd (leaf-internal ids' inner (ground (arith, e, more, single')))
          | inr more' ↦ nibble-same (length path) ids ids' x (
              groups-same (build_recursive h left) (build_recursive-same left) path ids ids' nibbles
                (nibble_at x (length path)) x
                (internal_injective inner inner' (children-positive left path ids nibbles)
                  (children-positive left path ids' nibbles) (ground (arith, e, more, more')))
                (contains-nibbles (nibble_at x (length path)) (nibble_bound x (length path))))
        ]
      ]

  root_of :
      (ids : List ℕ)
      → (length ids == 0) ≡ false
      → root_hash (from_ids h ids) ≡ (build_recursive h 64 [] (sort compare ids)).0
  unfolding from_ids
  root_of ids full = rw full (root_hash-build_recursive h 64 (sort compare ids))

  root_of_none : (ids : List ℕ) → (length ids == 0) ≡ true → root_hash (from_ids h ids) ≡ 0
  unfolding from_ids root_hash
  root_of_none ids empty = rw empty refl

  -- Two trees with one root hash are built from the same ids, if no two inputs of the hashes, be they of
  -- leaves or of inner nodes, have one hash, and none has the zero that stands for the empty tree.
  pub root_hash-same :
      (mine theirs : List ℕ)
      → root_hash (from_ids h mine) ≡ root_hash (from_ids h theirs)
      → (x : ℕ) → contains mine x ≡ contains theirs x
  root_hash-same mine theirs e x = elim (Bool-cases (length mine == 0)) [
    | inl empty ↦ elim (Bool-cases (length theirs == 0)) [
      | inl empty' ↦ length-zero-contains mine x empty ∙ sym (length-zero-contains theirs x empty')
      | inr full' ↦ absurd (
          build_recursive-positive 64 [] (sort compare theirs)
            (sym (root_of theirs full') ∙ sym e ∙ root_of_none mine empty))
    ]
    | inr full ↦ elim (Bool-cases (length theirs == 0)) [
      | inl empty' ↦ absurd (
          build_recursive-positive 64 [] (sort compare mine)
            (sym (root_of mine full) ∙ e ∙ root_of_none theirs empty'))
      | inr full' ↦
          sym (contains-sort mine x)
          ∙ build_recursive-same 64 [] (sort compare mine) (sort compare theirs) x
              (sym (root_of mine full) ∙ e ∙ root_of theirs full')
          ∙ contains-sort theirs x
    ]
  ]
