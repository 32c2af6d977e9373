-- ===== src/Token.antt =====
-- core/crdt/src/token.rs: room tokens, the message that is signed, and verification.
-- Ed25519 is the dalek crate's: `sign`, `verify` and the public key of a key are parameters. An
-- array of bytes keeps its bytes here, since the message is made of them.
pub mod Messages
pub mod Verify
use Prim.Native.Nat.{Ordering}
use nodalmerge.Base.{
  ℕ, zero, suc, ◌/◌, ◌%◌, Bool, true, false, Bytes, List, [], ◌∷◌, ◌++◌, bytes_eq, bytes_cmp, leb,
  if◌then◌else◌,
}
use nodalmerge.Base.Endian.{le_bytes}
use nodalmerge.Base.Sort.{sort}

-- `b"nodalmerge-room-token-v1"`
abbrev pub domain : Bytes
domain =
    b'n' ∷ b'o' ∷ b'd' ∷ b'a' ∷ b'l' ∷ b'm' ∷ b'e' ∷ b'r' ∷ b'g' ∷ b'e' ∷ b'-' ∷ b'r' ∷ b'o' ∷ b'o'
    ∷ b'm' ∷ b'-' ∷ b't' ∷ b'o' ∷ b'k' ∷ b'e' ∷ b'n' ∷ b'-' ∷ b'v' ∷ b'1' ∷ []

abbrev pub newline : ℕ
newline = 10

pub data TokenError : Type 0 where
  expired bad_signature peer_mismatch : TokenError

pub data Verdict : Type 0 where
  accepted : Verdict
  refused : TokenError → Verdict

pub record RoomToken : Type 0 where
  pub peer_pubkey : Bytes
  pub expiry_secs : ℕ
  pub capabilities : List Bytes
  pub signature : Bytes

-- `join("\n")`
unfoldable pub join : List Bytes → Bytes
join [] = []
join (cap ∷ []) = cap
join (cap ∷ next ∷ caps) = cap ++ (newline ∷ join (next ∷ caps))

unfoldable pub token_message : Bytes → Bytes → ℕ → List Bytes → Bytes
token_message room_id peer_pubkey expiry_secs sorted_caps =
    domain
    ++ (0 ∷ (room_id ++ (0 ∷ (peer_pubkey ++ (le_bytes 8 expiry_secs ++ (0 ∷ join sorted_caps))))))

-- what the code uses of ed25519-dalek
pub record SignatureScheme : Type 1 where
  pub SigningKey : Type 0
  pub VerifyingKey : Type 0
  pub verifying_key : SigningKey → VerifyingKey
  pub sign_bytes : SigningKey → Bytes → Bytes
  pub verify_bytes : VerifyingKey → Bytes → Bytes → Bool

module _ (scheme : SignatureScheme) where
  open scheme use {SigningKey, VerifyingKey, sign_bytes, verify_bytes}

  -- `RoomToken::sign`
  unfoldable pub sign : Bytes → Bytes → ℕ → List Bytes → SigningKey → RoomToken
  sign room_id peer_pubkey expiry_secs capabilities key =
      let sorted_caps : List Bytes = sort bytes_cmp capabilities in
      record {
        peer_pubkey = peer_pubkey;
        expiry_secs = expiry_secs;
        capabilities = sorted_caps;
        signature = sign_bytes key (token_message room_id peer_pubkey expiry_secs sorted_caps);
      }

  -- `RoomToken::verify`
  unfoldable pub verify : RoomToken → Bytes → VerifyingKey → Bytes → ℕ → Verdict
  verify token room_id key connecting_peer_pubkey now_secs =
      if bytes_eq token.peer_pubkey connecting_peer_pubkey
      then (if leb token.expiry_secs now_secs
          then Verdict.refused TokenError.expired
          else (if verify_bytes key
                (token_message room_id token.peer_pubkey token.expiry_secs
                  (sort bytes_cmp token.capabilities))
                token.signature
              then Verdict.accepted
              else Verdict.refused TokenError.bad_signature))
      else Verdict.refused TokenError.peer_mismatch
