-- ===== src/Compaction/Snapshots.antt =====
-- The snapshots that core/crdt/src/compaction.rs makes: what a receiver reads from them, and which
-- new graphs accept them.
use Prim.Native.Nat.{compare}
use nodalmerge.Base.{
  ℕ, ◌+◌, ◌%◌, ◌^◌, ◌<◌, ◌≡◌, refl, ap, ◌∙◌, true, Bytes, List, [], ◌∷◌, Option, none, some, arith,
  ltb, bytes_eq, any, inl, inr, contains, Option-cases,
}
use nodalmerge.Base.Sort.{sort}
use nodalmerge.Op.{Transaction, hash_bytes}
use nodalmerge.Error.{ok}
use nodalmerge.Node.{SyncNode, new_signed, verify_signature, transaction_hash}
use nodalmerge.Storage.{contains_node, holds}
use nodalmerge.Graph.{
  StateGraph, Env, new_graph, snap_hash_key, u64_max, lamport_slack, saturating_add,
  is_snapshot_node, sets_snapshot_hash,
}
use nodalmerge.Graph.Remote.{apply_remote}
use nodalmerge.Graph.Admission.{
  is_ok, admissible, in_time, all_stored, apply_remote_checked-admissible,
}
use nodalmerge.Replay.{
  PolicyTimelineEntry, policy_timeline_cutover_lamport, canonical_hash, resolved_entries,
}
use nodalmerge.Compaction.{
  ArchiveCodec, snap_front_key, is_user_key, set_op, snapshot_transaction, compact_from,
}
use nodalmerge.Compaction.Receive.{
  SnapshotMeta, SnapshotFields, no_fields, read_ops, snapshot_meta, verify_snapshot,
  snapshot_policy_timeline_compatible, is_unset, eq_option,
}
use nodalmerge.Compaction.Fields.{
  InRange, fingerprint, read_step, read_hash, read_front, read_base_ops, read_timeline_ops,
}

module _ {P : Type 0} (env : Env P) (codec : ArchiveCodec) where
  open env use {crypto}
  open codec use {encode_ids, decode_ids}

  -- what a snapshot of a graph should say
  unfoldable pub described :
      StateGraph P → crypto.SigningKey → Option ℕ → List PolicyTimelineEntry → SnapshotMeta
  described g key base timeline = record {
    snapshot_hash = canonical_hash crypto (resolved_entries is_user_key g);
    frontier = sort compare g.frontier.heads;
    author = crypto.verifying_key key;
    base_id = base;
    policy_timeline_hash = fingerprint env codec timeline;
    policy_cutover_lamport = policy_timeline_cutover_lamport timeline;
  }

  -- a snapshot that is made is signed, over the encoded frontier
  compact_from-signed :
      (g : StateGraph P) (key : crypto.SigningKey) (base : Option ℕ)
      (timeline : List PolicyTimelineEntry) {node : SyncNode}
      → compact_from env codec g key base timeline ≡ ok node
      → (bytes : Bytes) × (encode_ids (sort compare g.frontier.heads) ≡ some bytes)
        × (node ≡ new_signed crypto (snapshot_transaction env codec g key base timeline bytes) key)
  unfolding compact_from
  compact_from-signed g key base timeline {node} made =
      elim (Option-cases (encode_ids (sort compare g.frontier.heads))) [
        | inl failed ↦ absurd (ground arith)
        | inr (bytes, encoded) ↦
            let same : ok
                  (new_signed crypto (snapshot_transaction env codec g key base timeline bytes) key)
                ≡ ok node =
              rw (encoded, compact_from) at made in
            (bytes, encoded, ground arith)
      ]

  -- a node that is signed with a key whose signature verifies
  new_signed-verifies :
      (tx : Transaction) (key : crypto.SigningKey)
      → crypto.verify_id tx.author
          (transaction_hash crypto tx)
          (crypto.sign_id key (transaction_hash crypto tx))
        ≡ true
      → verify_signature crypto (new_signed crypto tx key) ≡ ok tt
  unfolding verify_signature new_signed
  new_signed-verifies tx key signs = ground arith

  verify-read :
      (node : SyncNode) (fields : SnapshotFields)
      → verify_signature crypto node ≡ ok tt
      → read_ops env codec node.transaction.ops no_fields ≡ ok fields
      → verify_snapshot env codec node ≡ snapshot_meta env codec node.transaction.author fields
  unfolding verify_snapshot
  verify-read node fields verified read = rw (verified, read, verify_snapshot) refl

  -- a signed node without parents that sets the snapshot hash, at a graph without nodes
  new_graph-admissible :
      (projections : P) (tx : Transaction) (key : crypto.SigningKey) (clock : ℕ)
      → crypto.verify_id tx.author
          (transaction_hash crypto tx)
          (crypto.sign_id key (transaction_hash crypto tx))
        ≡ true
      → clock < u64_max
      → tx.lamport ≡ (clock + 1) % (u64_max + 1)
      → tx.wall_ms ≡ 0
      → tx.parents ≡ []
      → is_snapshot_node (new_signed crypto tx key) ≡ true
      → admissible env none (new_signed crypto tx key) (new_graph projections)
        ≡ ltb clock lamport_slack
  unfolding admissible new_signed in_time all_stored saturating_add contains contains_node holds
  new_graph-admissible projections tx key clock signs room lamport wall parents marked =
      rw (marked, parents, lamport) (ground arith)

  read_snapshot :
      (g : StateGraph P) (key : crypto.SigningKey) (base : Option ℕ)
      (timeline : List PolicyTimelineEntry) (bytes : Bytes)
      → decode_ids bytes ≡ some (sort compare g.frontier.heads)
      → ((b : Bytes) → crypto.blake3 b < 2 ^ 256)
      → InRange (2 ^ 256) base
      → InRange (2 ^ 64) (policy_timeline_cutover_lamport timeline)
      → read_ops env codec (snapshot_transaction env codec g key base timeline bytes).ops no_fields
        ≡ ok (record {
          snap_hash = some (canonical_hash crypto (resolved_entries is_user_key g));
          front = some (sort compare g.frontier.heads);
          base = base;
          timeline_hash = fingerprint env codec timeline;
          cutover = policy_timeline_cutover_lamport timeline;
        })
  unfolding snapshot_transaction canonical_hash
  read_snapshot g key base timeline bytes decoded small range cutoff =
      let h : ℕ = canonical_hash crypto (resolved_entries is_user_key g) in
      let hashed : SnapshotFields = record no_fields { snap_hash = some h } in
      let fronted : SnapshotFields = record hashed {
        front = some (sort compare g.frontier.heads);
      } in
      read_step env codec (set_op snap_hash_key (hash_bytes h)) _ no_fields hashed
        (read_hash env codec h no_fields (small _))
      ∙ read_step env codec (set_op snap_front_key bytes) _ hashed fronted
          (read_front env codec bytes _ hashed decoded)
      ∙ read_base_ops env codec base _ fronted range refl
      ∙ read_timeline_ops env codec timeline (record fronted { base = base }) small cutoff refl refl

  meta-compatible :
      (g : StateGraph P) (key : crypto.SigningKey) (base : Option ℕ)
      (timeline : List PolicyTimelineEntry)
      → snapshot_policy_timeline_compatible env codec (described g key base timeline) timeline
        ≡ true
  unfolding snapshot_policy_timeline_compatible described fingerprint is_unset eq_option
      policy_timeline_cutover_lamport
  meta-compatible g key base [] = refl
  meta-compatible g key base (entry ∷ timeline) = ground arith

  -- A snapshot that is made of a graph, full or chained to a base, verifies, and is read as the hash
  -- of the resolved entries with user keys, the sorted frontier, the author's key, the base, and the fingerprint and
  -- the cutover of the policy timeline, with which it is then compatible. The conditions are that
  -- signatures by the key verify, that encoded ids are decoded, and that hashes and clocks have their widths.
  pub verify_snapshot-compact_from :
      (g : StateGraph P) (key : crypto.SigningKey) (base : Option ℕ)
      (timeline : List PolicyTimelineEntry) {node : SyncNode}
      → ((id : ℕ) → crypto.verify_id (crypto.verifying_key key) id (crypto.sign_id key id) ≡ true)
      → ((ids : List ℕ) (b : Bytes) → encode_ids ids ≡ some b → decode_ids b ≡ some ids)
      → ((b : Bytes) → crypto.blake3 b < 2 ^ 256)
      → InRange (2 ^ 256) base
      → InRange (2 ^ 64) (policy_timeline_cutover_lamport timeline)
      → compact_from env codec g key base timeline ≡ ok node
      → (verify_snapshot env codec node ≡ ok (described g key base timeline))
        × (snapshot_policy_timeline_compatible env codec (described g key base timeline) timeline
            ≡ true)
  unfolding snapshot_transaction snapshot_meta described new_signed
  verify_snapshot-compact_from g key base timeline {node} signs decodes small range cutoff made =
      let (bytes, encoded, same) = compact_from-signed g key base timeline made in
      let read =
        read_snapshot g key base timeline bytes (decodes _ bytes encoded) small range cutoff in
      (
        ap (verify_snapshot env codec) same
            ∙ verify-read
                (new_signed crypto (snapshot_transaction env codec g key base timeline bytes) key) _
                (new_signed-verifies (snapshot_transaction env codec g key base timeline bytes) key
                  (signs _))
                read,
        meta-compatible g key base timeline,
      )

  -- A graph that is new accepts the snapshot of a graph, in a release or a debug build, exactly if the
  -- clock of the graph is below the slack, provided that the clock can still advance and that
  -- signatures by the key verify.
  pub snapshot-young :
      (projections : P) (g : StateGraph P) (key : crypto.SigningKey) (base : Option ℕ)
      (timeline : List PolicyTimelineEntry) {node : SyncNode}
      → ((id : ℕ) → crypto.verify_id (crypto.verifying_key key) id (crypto.sign_id key id) ≡ true)
      → g.lamport < u64_max
      → compact_from env codec g key base timeline ≡ ok node
      → is_ok (apply_remote env node (new_graph projections)).1 ≡ ltb g.lamport lamport_slack
  unfolding apply_remote snapshot_transaction new_signed is_snapshot_node sets_snapshot_hash any
      bytes_eq
  snapshot-young projections g key base timeline {node} signs room made =
      let (bytes, encoded, same) = compact_from-signed g key base timeline made in
      apply_remote_checked-admissible env none node (new_graph projections)
      ∙ ap (λ n. admissible env none n (new_graph projections)) same
      ∙ new_graph-admissible projections (snapshot_transaction env codec g key base timeline bytes)
          key g.lamport (signs _) room refl refl refl refl
