-- ===== src/Tests/Batches.antt =====
-- A batch of nodes, with a toy signature scheme.
use nodalmerge.Base.{
  ℕ, ◌+◌, ◌≡◌, refl, Bool, true, ◌&&◌, ◌||◌, List, [], ◌∷◌, ◌++◌, map, none, arith, ◌==◌, contains,
  All, any, bytes_eq, retain,
}
use nodalmerge.Error.{SyncError}
use nodalmerge.Op.{op_key, map_key}
use nodalmerge.Node.{SyncNode, transaction_hash, verify_signature, is_zero}
use nodalmerge.Policy.{can_write, is_allow_all, rules_allow}
use nodalmerge.Storage.{contains_node, holds, put, insert_entry}
use nodalmerge.Frontier.{push_new}
use nodalmerge.Graph.{
  check_lamport_ceiling, missing_parent, is_snapshot_node, sets_snapshot_hash, violated_key,
  insert_node, inserted, saturating_add,
}
use nodalmerge.Graph.Remote.{
  apply_remote_verified_no_projection, check_node, check_hash, check_skew, policy_violation,
}
use nodalmerge.Graph.Keeps.{new_graph-IsValid}
use nodalmerge.Graph.Valid.{IsValid}
use nodalmerge.Graph.Batch.{
  BatchVerifier, enumerate, prechecked, precheck, verify_nodes_batched, verify_chunk, chunks_from,
  flags, write, write_all, messages, is_verified, flagged_step, file_outcome, apply_flagged,
  apply_remote_batch_checked,
}
use nodalmerge.Graph.Batch.Signatures.{IsSound, check}
use nodalmerge.Graph.Batch.Positions.{verify_nodes_batched_lem}
use nodalmerge.Graph.Batch.Sequence.{projected, apply_remote_each}
use nodalmerge.Graph.Batch.Outcome.{
  apply_remote_batch_checked-each, apply_remote_batch_checked-IsValid,
}
use nodalmerge.Graph.Batch.Dropped.{apply_remote_batch_checked-dropped}
use nodalmerge.Tests.Graphs.{toy_crypto, toy_env, empty_graph, received, edit}

all_valid : List (ℕ × ℕ × ℕ) → Bool
all_valid [] = true
all_valid ((id, signature, author) ∷ l) = ((id + author) == signature) && all_valid l

abbrev toy_verifier : BatchVerifier
toy_verifier = record { decodes = λ author. true; verify_batch = all_valid }

all_valid_sound :
    (l : List (ℕ × ℕ × ℕ))
    → all_valid l ≡ true
    → All (λ (m : ℕ × ℕ × ℕ). ((m.0 + m.2) == m.1) ≡ true) l
unfolding all_valid
all_valid_sound [] h = tt
all_valid_sound ((id, signature, author) ∷ l) h = (ground arith, all_valid_sound l (ground arith))

toy-IsSound : IsSound toy_crypto toy_verifier
toy-IsSound = record {
  undecoded = λ author id signature h. absurd (ground arith);
  batch_sound = all_valid_sound;
}

abbrev sent : ℕ → ℕ → ℕ → ℕ → List ℕ → SyncNode
sent id author lamport signature parents = record {
  id = id;
  transaction = record {
    author = author;
    lamport = lamport;
    wall_ms = 0;
    ops = edit;
    parents = parents;
  };
  signature = signature;
}

-- a good node, one with a wrong signature, one that waits for neither, one whose id is no hash
abbrev batch : List SyncNode
batch = received ∷ sent 104 8 4 1 [] ∷ sent 105 7 5 112 (103 ∷ []) ∷ sent 7 7 6 0 [] ∷ []

batch_report : (apply_remote_batch_checked toy_env toy_verifier none batch empty_graph).1 ≡ record {
  accepted = 103 ∷ 105 ∷ [];
  rejected = (7, SyncError.hash_mismatch 106 7) ∷ (104, SyncError.invalid_signature 104) ∷ [];
}
unfolding apply_remote_batch_checked prechecked precheck check_node check_hash transaction_hash
    check_lamport_ceiling saturating_add check_skew contains push_new contains_node holds
    verify_nodes_batched enumerate retain is_zero chunks_from verify_chunk messages all_valid flags
    write write_all is_verified verify_signature apply_flagged flagged_step file_outcome
    apply_remote_verified_no_projection missing_parent policy_violation is_snapshot_node
    sets_snapshot_hash any bytes_eq violated_key op_key map_key can_write is_allow_all rules_allow
    insert_node inserted put insert_entry
batch_report = refl

verify_nodes_batched_lem_example :
    All
      (λ (p : ℕ × SyncNode).
        verify_nodes_batched toy_env toy_verifier (104 ∷ []) batch p.0
        ≡ (contains (104 ∷ []) p.1.id || check toy_crypto p.1))
      (enumerate 0 batch)
verify_nodes_batched_lem_example =
    verify_nodes_batched_lem toy_env toy_verifier toy-IsSound (104 ∷ []) batch

apply_remote_batch_checked-each_example :
    (projected 0 (apply_remote_batch_checked toy_env toy_verifier none batch empty_graph).0
      ≡ projected 0
          (apply_remote_each toy_env none
            (prechecked toy_env none batch [] empty_graph).0
            empty_graph).0)
    × ((apply_remote_batch_checked toy_env toy_verifier none batch empty_graph).1 ≡ record {
      accepted =
          map
            (λ (n : SyncNode). n.id)
            (apply_remote_each toy_env none
              (prechecked toy_env none batch [] empty_graph).0
              empty_graph).1.0;
      rejected =
          (prechecked toy_env none batch [] empty_graph).1
          ++ (apply_remote_each toy_env none
              (prechecked toy_env none batch [] empty_graph).0
              empty_graph).1.1;
    })
apply_remote_batch_checked-each_example =
    apply_remote_batch_checked-each toy_env toy_verifier toy-IsSound none batch empty_graph

apply_remote_batch_checked-IsValid_example :
    IsValid (apply_remote_batch_checked toy_env toy_verifier none batch empty_graph).0
apply_remote_batch_checked-IsValid_example =
    apply_remote_batch_checked-IsValid toy_env toy_verifier none batch empty_graph
      (new_graph-IsValid {P = ℕ} 0)

-- a forged node under the id of the good one comes first
apply_remote_batch_checked-dropped_example :
    apply_remote_batch_checked toy_env toy_verifier none
      (sent 103 8 4 0 [] ∷ received ∷ [])
      empty_graph
    ≡ apply_remote_batch_checked toy_env toy_verifier none (sent 103 8 4 0 [] ∷ []) empty_graph
apply_remote_batch_checked-dropped_example =
    apply_remote_batch_checked-dropped toy_env toy_verifier none (sent 103 8 4 0 [] ∷ []) received
      [] empty_graph (unfold contains in refl)
