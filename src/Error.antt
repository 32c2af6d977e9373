-- ===== src/Error.antt =====
-- core/crdt/src/error.rs: `SyncError`, and the results that carry it.
use nodalmerge.Base.{ℕ, Bytes}

pub data SyncError : Type 0 where
  hash_mismatch : ℕ → ℕ → SyncError
  missing_parent : ℕ → SyncError
  duplicate_node : ℕ → SyncError
  serialization : Bytes → SyncError
  blob_not_found : ℕ → SyncError
  invalid_signature : ℕ → SyncError
  policy_violation : ℕ → Bytes → SyncError
  encryption_failed : SyncError
  decryption_failed : SyncError
  lamport_ceiling : ℕ → ℕ → ℕ → SyncError
  wall_clock_skew : ℕ → ℕ → ℕ → SyncError

pub data Result {ℓ} (A : Type ℓ) : Type ℓ where
  ok : A → Result A
  err : SyncError → Result A
