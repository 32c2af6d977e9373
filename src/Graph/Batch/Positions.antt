-- ===== src/Graph/Batch/Positions.antt =====
-- The batched signature check of core/crdt/src/graph.rs gives each node the flag of a check of its own.
use nodalmerge.Base.{
  ℕ, suc, ◌≤◌, ◌≡◌, refl, ◌∙◌, Bool, true, false, ◌||◌, List, [], ◌∷◌, arith, ◌==◌, if◌then◌else◌,
  contains, retain, All,
}
use nodalmerge.Node.{SyncNode, Crypto, verify_signature}
use nodalmerge.Graph.{Env}
use nodalmerge.Graph.Valid.{All-map}
use nodalmerge.Graph.Batch.{
  BatchVerifier, enumerate, needs_check, verify_nodes_batched, is_verified,
}
use nodalmerge.Graph.Batch.Writes.{covers}
use nodalmerge.Graph.Batch.Signatures.{IsSound, check, Flagged, need-covers, All-retain}

-- the flag of the node at position `j`, where the first one has position `k`
flag_from : Crypto → ℕ → List SyncNode → ℕ → Bool
flag_from crypto k [] j = true
flag_from crypto k (n ∷ nodes) j =
    if k == j then check crypto n else flag_from crypto (suc k) nodes j

module _ (crypto : Crypto) where
  enumerate-flag_from :
      (k : ℕ) (nodes : List SyncNode)
      → All
          (λ (p : ℕ × SyncNode). (k ≤ p.0) × (check crypto p.1 ≡ flag_from crypto k nodes p.0))
          (enumerate k nodes)
  unfolding enumerate flag_from
  enumerate-flag_from k [] = tt
  enumerate-flag_from k (n ∷ nodes) =
      (ground arith, All-map _ (λ p h. ground arith) (enumerate-flag_from (suc k) nodes))

covers-below :
    (test : ℕ × SyncNode → Bool) (l : List (ℕ × SyncNode)) (k : ℕ)
    → All (λ (p : ℕ × SyncNode). suc k ≤ p.0) l
    → covers (retain test l) k ≡ false
unfolding covers retain
covers-below test [] k h = refl
covers-below test (p ∷ l) k h = ground (arith, covers-below test l k h.1)

enumerate-bound :
    (k : ℕ) (nodes : List SyncNode) → All (λ (p : ℕ × SyncNode). k ≤ p.0) (enumerate k nodes)
unfolding enumerate
enumerate-bound k [] = tt
enumerate-bound k (n ∷ nodes) =
    (omega arith, All-map _ (λ p h. omega arith) (enumerate-bound (suc k) nodes))

-- the positions that a test leaves are those of the nodes that pass it
enumerate-covers :
    (test : ℕ × SyncNode → Bool) (k : ℕ) (nodes : List SyncNode)
    → All
        (λ (p : ℕ × SyncNode). (k ≤ p.0) × (covers (retain test (enumerate k nodes)) p.0 ≡ test p))
        (enumerate k nodes)
unfolding enumerate covers retain
enumerate-covers test k [] = tt
enumerate-covers test k (n ∷ nodes) = (
  (
    omega arith,
    ground (arith, covers-below test (enumerate (suc k) nodes) k (enumerate-bound (suc k) nodes)),
  ),
  All-map _ (λ p h. (omega arith, ground arith)) (enumerate-covers test (suc k) nodes),
)

All-zip {ℓ κ μ} :
    {A : Type ℓ} (Q : A → Type κ) (R : A → Type μ) (l : List A)
    → All Q l
    → All R l
    → All (λ a. Q a × R a) l
All-zip Q R [] h k = tt
All-zip Q R (a ∷ l) h k = ((h.0, k.0), All-zip Q R l h.1 k.1)

module _ {P : Type 0} (env : Env P) (verifier : BatchVerifier)
    (sound : IsSound env.crypto verifier) where
  open env use {crypto}

  flag-check :
      (verified_ids : List ℕ) (nodes : List SyncNode) (p : ℕ × SyncNode)
      → check crypto p.1 ≡ flag_from crypto 0 nodes p.0
      → covers (retain (needs_check verified_ids) (enumerate 0 nodes)) p.0
        ≡ needs_check verified_ids p
      → (if covers (retain (needs_check verified_ids) (enumerate 0 nodes)) p.0
          then flag_from crypto 0 nodes p.0
          else true)
        ≡ (contains verified_ids p.1.id || check crypto p.1)
  unfolding check verify_signature is_verified
  flag-check verified_ids nodes p right needed = ground arith

  -- The batched check gives every node of the batch the flag that a check of its own would give: it
  -- passes if its id was verified before, or its signature is zero or verifies; where the batch
  -- verifier only passes what verifies.
  pub verify_nodes_batched_lem :
      (verified_ids : List ℕ) (nodes : List SyncNode)
      → All
          (λ (p : ℕ × SyncNode).
            verify_nodes_batched env verifier verified_ids nodes p.0
            ≡ (contains verified_ids p.1.id || check crypto p.1))
          (enumerate 0 nodes)
  unfolding verify_nodes_batched
  verify_nodes_batched_lem verified_ids nodes =
      let all : List (ℕ × SyncNode) = enumerate 0 nodes in
      let right = enumerate-flag_from crypto 0 nodes in
      let needed = enumerate-covers (needs_check verified_ids) 0 nodes in
      All-map all
        (λ p h.
          need-covers env verifier sound (flag_from crypto 0 nodes)
            (retain (needs_check verified_ids) all) p.0
            (All-retain _ (Flagged crypto (flag_from crypto 0 nodes)) (needs_check verified_ids) all
              (λ q test own. (ground arith, own.1)) right)
          ∙ flag-check verified_ids nodes p h.0.1 h.1.1)
        (All-zip _ _ all right needed)
