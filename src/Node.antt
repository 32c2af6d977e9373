-- ===== src/Node.antt =====
-- core/crdt/src/node.rs: signed nodes of the graph. Serialization (postcard), the hash (Blake3) and
-- the signatures (Ed25519) are other crates' code, and parameters here.
use nodalmerge.Base.{ℕ, Bool, Bytes, ◌==◌, if◌then◌else◌}
use nodalmerge.Op.{Transaction}
use nodalmerge.Error.{SyncError, Result, ok, err}

pub record SyncNode : Type 0 where
  pub id : ℕ
  pub transaction : Transaction
  pub signature : ℕ

-- `verify_id` decodes the author's key and the signature and verifies the bytes of an id.
pub record Crypto : Type 1 where
  pub SigningKey : Type 0
  pub to_allocvec : Transaction → Bytes
  pub blake3 : Bytes → ℕ
  pub verifying_key : SigningKey → ℕ
  pub sign_id : SigningKey → ℕ → ℕ
  pub verify_id : ℕ → ℕ → ℕ → Bool

-- `Signature::zero()`
abbrev pub zero_signature : ℕ
zero_signature = 0

unfoldable pub is_zero : ℕ → Bool
is_zero signature = signature == zero_signature

module _ (c : Crypto) where
  open c use {SigningKey, to_allocvec, blake3, sign_id, verify_id}

  -- `Transaction::hash`
  unfoldable pub transaction_hash : Transaction → ℕ
  transaction_hash tx = blake3 (to_allocvec tx)

  -- `SyncNode::new`
  unfoldable pub new_unsigned : Transaction → SyncNode
  new_unsigned tx = record {
    id = transaction_hash tx;
    transaction = tx;
    signature = zero_signature;
  }

  -- `SyncNode::new_signed`
  unfoldable pub new_signed : Transaction → SigningKey → SyncNode
  new_signed tx key = record {
    id = transaction_hash tx;
    transaction = tx;
    signature = sign_id key (transaction_hash tx);
  }

  unfoldable pub verify_signature : SyncNode → Result (Unit {0})
  unfolding is_zero
  verify_signature node =
      if is_zero node.signature
      then ok tt
      else if verify_id node.transaction.author node.id node.signature
      then ok tt
      else err (SyncError.invalid_signature node.id)
