-- ===== src/Graph/Batch/Signatures.antt =====
-- The batched signature check of core/crdt/src/graph.rs gives the flags of a check one by one.
use nodalmerge.Base.{
  ℕ, ◌≡◌, refl, ap, ◌∙◌, Bool, true, false, ◌||◌, List, [], ◌∷◌, map, arith, inl, inr,
  if◌then◌else◌, retain, All, Bool-cases,
}
use nodalmerge.Node.{SyncNode, Crypto, is_zero, verify_signature}
use nodalmerge.Graph.{Env}
use nodalmerge.Graph.Valid.{All-map}
use nodalmerge.Graph.Batch.Writes.{
  Follows, covers, covers_any, write_all-covers, covers-append, covers-flags, flags-Follows, All-++,
  covers-chunks_from, All-chunks_from,
}
use nodalmerge.Graph.Batch.{
  BatchVerifier, chunks_from, flags, write_all, is_verified, messages, has_key, lacks_key,
  verify_chunk, batch_verify_chunk,
}

-- what the library promises of the decoding of keys and of the batch check
pub record IsSound (crypto : Crypto) (verifier : BatchVerifier) : Type 0 where
  pub undecoded :
      (author id signature : ℕ)
      → verifier.decodes author ≡ false
      → crypto.verify_id author id signature ≡ false
  pub batch_sound :
      (l : List (ℕ × ℕ × ℕ))
      → verifier.verify_batch l ≡ true
      → All (λ (m : ℕ × ℕ × ℕ). crypto.verify_id m.2 m.0 m.1 ≡ true) l

-- `verify_signature` as a flag
unfoldable pub check : Crypto → SyncNode → Bool
unfolding is_verified
check crypto n = is_verified (verify_signature crypto n)

pub All-retain {ℓ κ μ} :
    {A : Type ℓ} (Q : A → Type κ) (R : A → Type μ) (test : A → Bool) (l : List A)
    → ((a : A) → test a ≡ true → Q a → R a)
    → All Q l
    → All R (retain test l)
unfolding retain
All-retain Q R test [] f h = tt
All-retain Q R test (a ∷ l) f h = elim (Bool-cases (test a)) [
  | inl hit ↦ rw hit (f a hit h.0, All-retain Q R test l f h.1)
  | inr miss ↦ rw miss (All-retain Q R test l f h.1)
]

-- a signed node whose position has its flag
abbrev pub Flagged : Crypto → (ℕ → Bool) → ℕ × SyncNode → Type 0
Flagged crypto g p = (is_zero p.1.signature ≡ false) × (check crypto p.1 ≡ g p.0)

module _ (crypto : Crypto) (verifier : BatchVerifier) (sound : IsSound crypto verifier) where
  lacking-flag :
      (g : ℕ → Bool) (p : ℕ × SyncNode)
      → lacks_key verifier p ≡ true
      → Flagged crypto g p
      → false ≡ g p.0
  unfolding check verify_signature is_verified
  lacking-flag g (i, n) lacks h =
      ground (arith, sound.undecoded n.transaction.author n.id n.signature)

  batch-flags :
      (g : ℕ → Bool) (l : List (ℕ × SyncNode))
      → All (λ (m : ℕ × ℕ × ℕ). crypto.verify_id m.2 m.0 m.1 ≡ true) (messages l)
      → All (Flagged crypto g) l
      → All (λ (p : ℕ × SyncNode). true ≡ g p.0) l
  unfolding messages
  batch-flags g [] v h = tt
  batch-flags g ((i, n) ∷ l) v h =
      (unfold check verify_signature is_verified in ground arith, batch-flags g l v.1 h.1)

module _ {P : Type 0} (env : Env P) (verifier : BatchVerifier)
    (sound : IsSound env.crypto verifier) where
  open env use {crypto}

  good-Follows :
      (g : ℕ → Bool) (good : List (ℕ × SyncNode))
      → All (Flagged crypto g) good
      → Follows g (
          if verifier.verify_batch (messages good)
          then flags (λ n. true) good
          else flags (λ n. is_verified (verify_signature crypto n)) good)
  good-Follows g good h = elim (Bool-cases (verifier.verify_batch (messages good))) [
    | inl all ↦ rw all (
        flags-Follows g (λ n. true) good
          (batch-flags crypto verifier sound g good (sound.batch_sound (messages good) all) h))
    | inr some_bad ↦
        rw some_bad (flags-Follows g _ good (unfold check in All-map good (λ p q. q.1) h))
  ]

  chunk-Follows :
      (g : ℕ → Bool) (chunk : List (ℕ × SyncNode))
      → All (Flagged crypto g) chunk
      → Follows g (verify_chunk env verifier chunk)
  unfolding verify_chunk
  chunk-Follows g chunk h =
      All-++ _ (flags (λ n. false) (retain (lacks_key verifier) chunk)) _
        (flags-Follows g (λ n. false) (retain (lacks_key verifier) chunk)
          (All-retain _ _ (lacks_key verifier) chunk (lacking-flag crypto verifier sound g) h))
        (good-Follows g (retain (has_key verifier) chunk)
          (All-retain _ (Flagged crypto g) (has_key verifier) chunk (λ p t q. q) h))

  chunks-Follow :
      (g : ℕ → Bool) (chunks : List (List (ℕ × SyncNode)))
      → All (All (Flagged crypto g)) chunks
      → All (Follows g) (map (verify_chunk env verifier) chunks)
  chunks-Follow g [] h = tt
  chunks-Follow g (chunk ∷ chunks) h = (chunk-Follows g chunk h.0, chunks-Follow g chunks h.1)

  covers-keys :
      (chunk : List (ℕ × SyncNode)) (j : ℕ)
      → (covers (retain (lacks_key verifier) chunk) j || covers (retain (has_key verifier) chunk) j)
        ≡ covers chunk j
  unfolding covers retain
  covers-keys [] j = refl
  covers-keys ((i, n) ∷ chunk) j = ground (arith, covers-keys chunk j)

  covers-verify_chunk :
      (chunk : List (ℕ × SyncNode)) (j : ℕ)
      → covers (verify_chunk env verifier chunk) j ≡ covers chunk j
  unfolding verify_chunk
  covers-verify_chunk chunk j =
      let good : List (ℕ × SyncNode) = retain (has_key verifier) chunk in
      let lacking : List (ℕ × SyncNode) = retain (lacks_key verifier) chunk in
      ground (
        arith,
        covers-append (flags (λ n. false) lacking)
            (if verifier.verify_batch (messages good)
              then flags (λ n. true) good
              else flags (λ n. is_verified (verify_signature crypto n)) good)
            j,
        covers-flags (λ n. false) lacking j,
        covers-flags (λ n. true) good j,
        covers-flags (λ n. is_verified (verify_signature crypto n)) good j,
        covers-keys chunk j,
      )

  covers_any-verify_chunk :
      (chunks : List (List (ℕ × SyncNode))) (j : ℕ)
      → covers_any (map (verify_chunk env verifier) chunks) j ≡ covers_any chunks j
  unfolding covers_any
  covers_any-verify_chunk [] j = refl
  covers_any-verify_chunk (chunk ∷ chunks) j =
      ground (arith, covers-verify_chunk chunk j, covers_any-verify_chunk chunks j)

  pub need-covers :
      (g : ℕ → Bool) (need : List (ℕ × SyncNode)) (j : ℕ)
      → All (Flagged crypto g) need
      → write_all
          (map
            (verify_chunk env verifier)
            (chunks_from batch_verify_chunk batch_verify_chunk [] need))
          (λ i. true)
          j
        ≡ (if covers need j then g j else true)
  need-covers g need j h =
      let chunks : List (List (ℕ × SyncNode)) =
        chunks_from batch_verify_chunk batch_verify_chunk [] need in
      write_all-covers g (map (verify_chunk env verifier) chunks) (λ i. true) j
        (chunks-Follow g chunks
          (All-chunks_from (Flagged crypto g) batch_verify_chunk batch_verify_chunk [] need tt h))
      ∙ ap (λ b. if b then g j else true)
          (covers_any-verify_chunk chunks j
            ∙ covers-chunks_from batch_verify_chunk batch_verify_chunk [] need j
            ∙ unfold covers in refl)
