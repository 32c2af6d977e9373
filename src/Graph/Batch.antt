-- ===== src/Graph/Batch.antt =====
-- `apply_remote_batch_checked` of core/crdt/src/graph.rs, with the batched signature check. A vector
-- of flags is a function from positions. `verify_batch` and the decoding of keys are those of
-- ed25519-dalek, and parameters here; the chunks run in any order, since each writes flags of its own. With
-- nothing to verify there is one empty chunk, which writes no flag, as the early return does.
pub mod Writes
pub mod Signatures
pub mod Positions
pub mod Sequence
pub mod Outcome
pub mod Dropped
use nodalmerge.Base.{
  ℕ, zero, suc, Bool, true, false, not, ◌&&◌, List, [], ◌∷◌, ◌++◌, map, Option, none, ◌==◌,
  if◌then◌else◌, contains, retain,
}
use nodalmerge.Error.{SyncError, Result, ok, err}
use nodalmerge.Node.{SyncNode, is_zero, verify_signature}
use nodalmerge.Storage.{contains_node}
use nodalmerge.Frontier.{push_new}
use nodalmerge.Graph.{StateGraph, Env}
use nodalmerge.Graph.Remote.{check_node, apply_remote_verified_no_projection}

pub record BatchResult : Type 0 where
  pub accepted : List ℕ
  pub rejected : List (ℕ × SyncError)

-- `VerifyingKey::from_bytes(..).is_ok()`, and `verify_batch` on ids, signatures and authors
pub record BatchVerifier : Type 0 where
  pub decodes : ℕ → Bool
  pub verify_batch : List (ℕ × ℕ × ℕ) → Bool

-- `BATCH_VERIFY_CHUNK`
abbrev pub batch_verify_chunk : ℕ
batch_verify_chunk = 256

-- `enumerate()`
unfoldable pub enumerate {ℓ} : {A : Type ℓ} → ℕ → List A → List (ℕ × A)
enumerate i [] = []
enumerate i (a ∷ l) = (i, a) ∷ enumerate (suc i) l

-- `chunks`, where the current chunk has room for `room` more
unfoldable pub chunks_from {ℓ} : {A : Type ℓ} → ℕ → ℕ → List A → List A → List (List A)
chunks_from size room current [] = current ∷ []
chunks_from size zero current (a ∷ l) = current ∷ chunks_from size size (a ∷ []) l
chunks_from size (suc room) current (a ∷ l) = chunks_from size room (current ++ a ∷ []) l

unfoldable pub flags {ℓ} : {A : Type ℓ} → (A → Bool) → List (ℕ × A) → List (ℕ × Bool)
flags f [] = []
flags f ((i, a) ∷ l) = (i, f a) ∷ flags f l

-- `results[idx] = ok`, for each pair in turn
unfoldable pub write : List (ℕ × Bool) → (ℕ → Bool) → ℕ → Bool
write [] results = results
write ((i, flag) ∷ l) results = write l (λ j. if i == j then flag else results j)

unfoldable pub write_all : List (List (ℕ × Bool)) → (ℕ → Bool) → ℕ → Bool
write_all [] results = results
write_all (chunk ∷ chunks) results = write_all chunks (write chunk results)

unfoldable pub is_verified {ℓ} : {A : Type ℓ} → Result A → Bool
is_verified (ok a) = true
is_verified (err e) = false

unfoldable pub messages : List (ℕ × SyncNode) → List (ℕ × ℕ × ℕ)
messages [] = []
messages ((i, n) ∷ l) = (n.id, n.signature, n.transaction.author) ∷ messages l

-- the rejections after one more
abbrev pub reject {ℓ} :
    {A : Type ℓ} → ℕ → SyncError → A × List (ℕ × SyncError) → A × List (ℕ × SyncError)
reject id e (kept, rejected) = (kept, (id, e) ∷ rejected)

abbrev pub keep {ℓ κ} : {A : Type ℓ} {B : Type κ} → A → List A × B → List A × B
keep a (kept, rejected) = (a ∷ kept, rejected)

abbrev pub has_key : BatchVerifier → ℕ × SyncNode → Bool
has_key verifier (i, n) = verifier.decodes n.transaction.author

abbrev pub lacks_key : BatchVerifier → ℕ × SyncNode → Bool
lacks_key verifier (i, n) = not (verifier.decodes n.transaction.author)

-- signed, and not verified before
abbrev pub needs_check : List ℕ → ℕ × SyncNode → Bool
needs_check verified_ids (i, n) = not (is_zero n.signature) && not (contains verified_ids n.id)

unfoldable pub file_outcome :
    SyncNode
    → Result (Unit {0})
    → List SyncNode × List (ℕ × SyncError)
    → List SyncNode × List (ℕ × SyncError)
file_outcome node (ok _) outcomes = keep node outcomes
file_outcome node (err e) outcomes = reject node.id e outcomes

module _ {P : Type 0} (env : Env P) where
  open env use {crypto, project_batch}

  -- a node before its signature is looked at: dropped, rejected or left to verify
  unfoldable pub precheck :
      Option ℕ
      → SyncNode
      → List ℕ
      → StateGraph P
      → List SyncNode × List (ℕ × SyncError)
      → List SyncNode × List (ℕ × SyncError)
  precheck now node seen_in_batch g rest =
      if contains seen_in_batch node.id
      then rest
      else if contains_node g.nodes node.id
      then rest
      else elim (check_node env now node g) [
        | err e ↦ reject node.id e rest
        | ok _ ↦ keep node rest
      ]

  unfoldable pub prechecked :
      Option ℕ → List SyncNode → List ℕ → StateGraph P → List SyncNode × List (ℕ × SyncError)
  unfolding precheck
  prechecked now [] seen_in_batch g = ([], [])
  prechecked now (node ∷ nodes) seen_in_batch g =
      precheck now node seen_in_batch g (prechecked now nodes (push_new node.id seen_in_batch) g)

  -- a node in its turn; one that fails after its signature check stays in the verified ids
  unfoldable pub flagged_step : SyncNode → Bool → StateGraph P → StateGraph P × Result (Unit {0})
  flagged_step node false g = (g, err (SyncError.invalid_signature node.id))
  flagged_step node true g =
      let g' = record g { verified_ids = push_new node.id g.verified_ids } in
      elim (apply_remote_verified_no_projection env node g') [
        | err e ↦ (g', err e)
        | ok g'' ↦ (g'', ok tt)
      ]

  -- the nodes in their order, with the flag of each position
  unfoldable pub apply_flagged :
      (ℕ → Bool)
      → ℕ
      → List SyncNode
      → StateGraph P
      → StateGraph P × (List SyncNode × List (ℕ × SyncError))
  unfolding flagged_step file_outcome
  apply_flagged verify_ok i [] g = (g, ([], []))
  apply_flagged verify_ok i (node ∷ nodes) g =
      let step = flagged_step node (verify_ok i) g in
      let rest = apply_flagged verify_ok (suc i) nodes step.0 in
      (rest.0, file_outcome node step.1 rest.1)

  module _ (verifier : BatchVerifier) where
    open verifier use {verify_batch}

    -- the nodes whose keys decode are verified as a batch, and one by one if that fails
    unfoldable pub verify_chunk : List (ℕ × SyncNode) → List (ℕ × Bool)
    verify_chunk chunk =
        let good = retain (has_key verifier) chunk in
        flags (λ n. false) (retain (lacks_key verifier) chunk)
        ++ (if verify_batch (messages good)
            then flags (λ n. true) good
            else flags (λ n. is_verified (verify_signature crypto n)) good)

    -- one flag for each node
    unfoldable pub verify_nodes_batched : List ℕ → List SyncNode → ℕ → Bool
    unfolding verify_chunk
    verify_nodes_batched verified_ids nodes =
        write_all
          (map verify_chunk (
            chunks_from batch_verify_chunk batch_verify_chunk []
              (retain (needs_check verified_ids) (enumerate 0 nodes))))
          (λ i. true)

    unfoldable pub apply_remote_batch_checked :
        Option ℕ → List SyncNode → StateGraph P → StateGraph P × BatchResult
    unfolding prechecked verify_nodes_batched apply_flagged
    apply_remote_batch_checked now nodes g =
        let to_verify = prechecked now nodes [] g in
        let done =
          apply_flagged (verify_nodes_batched g.verified_ids to_verify.0) 0 to_verify.0 g in
        (
          record done.0 {
            text_projections = project_batch done.0.nodes.entries done.1.0 done.0.text_projections;
          },
          record {
            accepted = map (λ (n : SyncNode). n.id) done.1.0;
            rejected = to_verify.1 ++ done.1.1;
          },
        )

    unfoldable pub apply_remote_batch : List SyncNode → StateGraph P → StateGraph P × BatchResult
    unfolding apply_remote_batch_checked
    apply_remote_batch nodes g = apply_remote_batch_checked none nodes g
