-- ===== src/Compaction/Fields.antt =====
-- What `verify_snapshot` of core/crdt/src/compaction.rs reads from each operation of a snapshot.
use mathlib.Core.Path.{ap₂}
use nodalmerge.Base.{
  ℕ, ◌^◌, ◌<◌, ◌≡◌, refl, ap, ◌∙◌, Bytes, List, [], ◌∷◌, ◌++◌, Option, none, some, arith, bytes_eq,
}
use nodalmerge.Base.Endian.{
  le_bytes, length-le_bytes, from_le_bytes-le_bytes, from_be_bytes-be_bytes,
}
use nodalmerge.Op.{Op, hash_bytes}
use nodalmerge.Error.{ok}
use nodalmerge.Graph.{Env, snap_hash_key}
use nodalmerge.Replay.{PolicyTimelineEntry, policy_timeline_cutover_lamport}
use nodalmerge.Compaction.{
  ArchiveCodec, snap_front_key, snap_base_key, snap_policy_timeline_hash_key,
  snap_policy_cutover_lamport_key, set_op, base_ops, cutover_ops, policy_timeline_hash,
  policy_timeline_ops,
}
use nodalmerge.Compaction.Receive.{
  SnapshotFields, to_hash, to_u64, set_if, read_set, read_op, read_ops,
}

pub to_hash-hash_bytes : (h : ℕ) → h < 2 ^ 256 → to_hash (hash_bytes h) ≡ some h
unfolding to_hash hash_bytes
to_hash-hash_bytes h lt = ap some (from_be_bytes-be_bytes 32 h (omega arith))

to_u64-le_bytes : (n : ℕ) → n < 2 ^ 64 → to_u64 (le_bytes 8 n) ≡ some n
unfolding to_u64
to_u64-le_bytes n lt = rw (length-le_bytes 8 n) (ap some (from_le_bytes-le_bytes 8 n (omega arith)))

abbrev pub InRange : ℕ → Option ℕ → Type 0
InRange bound none = Unit
InRange bound (some n) = n < bound

-- the fingerprint that a snapshot carries
unfoldable pub fingerprint :
    {P : Type 0} → Env P → ArchiveCodec → List PolicyTimelineEntry → Option ℕ
fingerprint env codec [] = none
fingerprint env codec (entry ∷ timeline) = some (policy_timeline_hash env codec (entry ∷ timeline))

module _ {P : Type 0} (env : Env P) (codec : ArchiveCodec) where
  pub read_step :
      (op : Op) (ops : List Op) (fields next : SnapshotFields)
      → read_op env codec op fields ≡ ok next
      → read_ops env codec (op ∷ ops) fields ≡ read_ops env codec ops next
  unfolding read_ops
  read_step op ops fields next h = rw (h, read_ops) refl

  pub read_hash :
      (h : ℕ) (fields : SnapshotFields)
      → h < 2 ^ 256
      → read_op env codec (set_op snap_hash_key (hash_bytes h)) fields
        ≡ ok (record fields { snap_hash = some h })
  unfolding read_op read_set bytes_eq
  read_hash h fields lt = rw (to_hash-hash_bytes h lt) refl

  pub read_front :
      (bytes : Bytes) (ids : List ℕ) (fields : SnapshotFields)
      → codec.decode_ids bytes ≡ some ids
      → read_op env codec (set_op snap_front_key bytes) fields
        ≡ ok (record fields { front = some ids })
  unfolding read_op read_set bytes_eq
  read_front bytes ids fields known = rw known refl

  read_base :
      (h : ℕ) (fields : SnapshotFields)
      → h < 2 ^ 256
      → read_op env codec (set_op snap_base_key (hash_bytes h)) fields
        ≡ ok (record fields { base = some h })
  unfolding read_op read_set bytes_eq set_if
  read_base h fields lt = rw (to_hash-hash_bytes h lt) refl

  read_timeline_hash :
      (h : ℕ) (fields : SnapshotFields)
      → h < 2 ^ 256
      → read_op env codec (set_op snap_policy_timeline_hash_key (hash_bytes h)) fields
        ≡ ok (record fields { timeline_hash = some h })
  unfolding read_op read_set bytes_eq set_if
  read_timeline_hash h fields lt = rw (to_hash-hash_bytes h lt) refl

  read_cutover :
      (n : ℕ) (fields : SnapshotFields)
      → n < 2 ^ 64
      → read_op env codec (set_op snap_policy_cutover_lamport_key (le_bytes 8 n)) fields
        ≡ ok (record fields { cutover = some n })
  unfolding read_op read_set bytes_eq set_if
  read_cutover n fields lt = rw (to_u64-le_bytes n lt) refl

  -- what the optional operations of a snapshot set
  pub read_base_ops :
      (base : Option ℕ) (ops : List Op) (fields : SnapshotFields)
      → InRange (2 ^ 256) base
      → fields.base ≡ none
      → read_ops env codec (base_ops base ++ ops) fields
        ≡ read_ops env codec ops (record fields { base = base })
  unfolding base_ops
  read_base_ops none ops fields lt unset =
      ap (λ b. read_ops env codec ops (record fields { base = b })) unset
  read_base_ops (some h) ops fields lt unset =
      read_step (set_op snap_base_key (hash_bytes h)) ops fields _ (read_base h fields lt)

  read_cutover_ops :
      (cutover : Option ℕ) (fields : SnapshotFields)
      → InRange (2 ^ 64) cutover
      → fields.cutover ≡ none
      → read_ops env codec (cutover_ops cutover) fields ≡ ok (record fields { cutover = cutover })
  unfolding cutover_ops read_ops
  read_cutover_ops none fields lt unset = ap (λ b. ok (record fields { cutover = b })) unset
  read_cutover_ops (some n) fields lt unset =
      read_step (set_op snap_policy_cutover_lamport_key (le_bytes 8 n)) [] fields _
        (read_cutover n fields lt)

  pub read_timeline_ops :
      (timeline : List PolicyTimelineEntry) (fields : SnapshotFields)
      → ((bytes : Bytes) → env.crypto.blake3 bytes < 2 ^ 256)
      → InRange (2 ^ 64) (policy_timeline_cutover_lamport timeline)
      → fields.timeline_hash ≡ none
      → fields.cutover ≡ none
      → read_ops env codec (policy_timeline_ops env codec timeline) fields
        ≡ ok (record fields {
          timeline_hash = fingerprint env codec timeline;
          cutover = policy_timeline_cutover_lamport timeline;
        })
  unfolding policy_timeline_ops fingerprint policy_timeline_hash policy_timeline_cutover_lamport
      read_ops
  read_timeline_ops [] fields small lt unhashed unset =
      ap (λ (f : Option ℕ × Option ℕ). ok (record fields { timeline_hash = f.0; cutover = f.1 }))
        (ap₂ (λ a b. (a, b)) unhashed unset)
  read_timeline_ops (entry ∷ timeline) fields small lt unhashed unset =
      let h : ℕ = policy_timeline_hash env codec (entry ∷ timeline) in
      read_step (set_op snap_policy_timeline_hash_key (hash_bytes h)) _ fields _
        (read_timeline_hash h fields (small _))
      ∙ read_cutover_ops (policy_timeline_cutover_lamport (entry ∷ timeline))
          (record fields { timeline_hash = some h }) lt unset
