-- ===== src/Mst/Paths.antt =====
-- The root hash of a tree of core/crdt/src/mst.rs is the hash of the node at the empty path, since the other
-- nodes stand below it.
use nodalmerge.Base.{
  ℕ, zero, suc, ◌≡◌, refl, List, [], ◌∷◌, ◌++◌, inl, inr, ◌==◌, length, Bool-cases,
}
use nodalmerge.Mst.{
  MstHash, Nodes, nibbles, group_of, leaf, build_groups, build_recursive, root_hash,
}

IsDeep : List ℕ → Type 0
IsDeep [] = ⊥
IsDeep (n ∷ path) = Unit

IsDeep-snoc : (path : List ℕ) (n : ℕ) → IsDeep (path ++ n ∷ [])
unfolding IsDeep
IsDeep-snoc [] n = tt
IsDeep-snoc (m ∷ path) n = tt

AreDeep : Nodes → Type 0
unfolding IsDeep
AreDeep [] = Unit
AreDeep ((path, node) ∷ nodes) = IsDeep path × AreDeep nodes

AreDeep-append : (a b : Nodes) → AreDeep a → AreDeep b → AreDeep (a ++ b)
unfolding AreDeep
AreDeep-append [] b h k = k
AreDeep-append ((path, node) ∷ a) b h k = (h.0, AreDeep-append a b h.1 k)

root_hash-append : (a b : Nodes) → AreDeep a → root_hash (a ++ b) ≡ root_hash b
unfolding root_hash AreDeep IsDeep
root_hash-append [] b h = refl
root_hash-append (([], node) ∷ a) b h = absurd h.0
root_hash-append ((n ∷ path, node) ∷ a) b h = root_hash-append a b h.1

module _ (h : MstHash) where
  build_groups-AreDeep :
      (build : List ℕ → List ℕ → ℕ × Nodes) (path ids ns : List ℕ)
      → ((path ids : List ℕ) → IsDeep path → AreDeep (build path ids).1)
      → AreDeep (build_groups h build path ids ns).1
  unfolding build_groups AreDeep
  build_groups-AreDeep build path ids [] deep = tt
  build_groups-AreDeep build path ids (n ∷ ns) deep =
      let rest = build_groups-AreDeep build path ids ns deep in
      elim (Bool-cases (length (group_of (length path) n ids) == 0)) [
        | inl empty ↦ rw empty rest
        | inr full ↦ rw full (
            AreDeep-append _ _
              (deep (path ++ n ∷ []) (group_of (length path) n ids) (IsDeep-snoc path n)) rest)
      ]

  build_recursive-AreDeep :
      (left : ℕ) (path ids : List ℕ) → IsDeep path → AreDeep (build_recursive h left path ids).1
  unfolding build_recursive leaf AreDeep
  build_recursive-AreDeep zero path ids deep = (deep, tt)
  build_recursive-AreDeep (suc left) path ids deep = elim (Bool-cases (length ids == 1)) [
    | inl single ↦ rw single (deep, tt)
    | inr more ↦ rw more (
        AreDeep-append _ _
          (build_groups-AreDeep (build_recursive h left) path ids nibbles
            (build_recursive-AreDeep left))
          (deep, tt))
  ]

  -- the root hash is that of the node at the empty path
  pub root_hash-build_recursive :
      (left : ℕ) (ids : List ℕ)
      → root_hash (build_recursive h left [] ids).1 ≡ (build_recursive h left [] ids).0
  unfolding build_recursive leaf root_hash
  root_hash-build_recursive zero ids = refl
  root_hash-build_recursive (suc left) ids = elim (Bool-cases (length ids == 1)) [
    | inl single ↦ rw single refl
    | inr more ↦ rw more (
        root_hash-append _ _ (
          build_groups-AreDeep (build_recursive h left) [] ids nibbles
            (build_recursive-AreDeep left)))
  ]
