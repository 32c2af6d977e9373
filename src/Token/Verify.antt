-- ===== src/Token/Verify.antt =====
-- Signing and verifying room tokens.
use mathlib.Core.List.{Permᴰ}
use nodalmerge.Base.{
  ℕ, ◌≤◌, ◌<◌, ◌≡◌, ◌≢◌, ◌↔◌, true, false, Bytes, List, arith, bytes_cmp, bytes_cmp_refl,
  eq_of_bytes_cmp, bytes_cmp-lt_of_gt, bytes_cmp-gt_of_lt, bytes_cmp_trans, bytes_eq_iff,
  bytes_eq_refl,
}
use nodalmerge.Base.Sort.{IsTotal, sort, sort-perm, sort-sort}
use nodalmerge.Token.{SignatureScheme, RoomToken, Verdict, TokenError, token_message, sign, verify}

pub bytes_cmp-IsTotal : IsTotal bytes_cmp
bytes_cmp-IsTotal = record {
  cmp_refl = bytes_cmp_refl;
  eq_of_cmp = eq_of_bytes_cmp;
  lt_of_gt = bytes_cmp-lt_of_gt;
  gt_of_lt = bytes_cmp-gt_of_lt;
  lt_trans = bytes_cmp_trans;
}

module _ (scheme : SignatureScheme) where
  open scheme use {SigningKey, VerifyingKey, verifying_key, sign_bytes, verify_bytes}

  -- When a token gets which verdict: a wrong peer is reported first, then a time that has come,
  -- then a signature that does not cover the room, the peer, the expiry and the sorted
  -- capabilities; it is accepted exactly when none of these applies.
  pub verify_iff :
      (token : RoomToken) (room : Bytes) (key : VerifyingKey) (peer : Bytes) (now : ℕ)
      → let message =
          token_message room token.peer_pubkey token.expiry_secs
            (sort bytes_cmp token.capabilities) in
        let verdict = verify scheme token room key peer now in
        ((verdict ≡ Verdict.refused TokenError.peer_mismatch) ↔ (token.peer_pubkey ≢ peer))
        × ((verdict ≡ Verdict.refused TokenError.expired)
            ↔ ((token.peer_pubkey ≡ peer) × (token.expiry_secs ≤ now)))
        × ((verdict ≡ Verdict.refused TokenError.bad_signature) ↔ (
            (token.peer_pubkey ≡ peer)
            × (now < token.expiry_secs)
            × (verify_bytes key message token.signature ≡ false)))
        × ((verdict ≡ Verdict.accepted) ↔ (
            (token.peer_pubkey ≡ peer)
            × (now < token.expiry_secs)
            × (verify_bytes key message token.signature ≡ true)))
  unfolding verify
  verify_iff token room key peer now =
      let same = bytes_eq_iff token.peer_pubkey peer in
      (
        (λ h. ground (arith, same), λ h. ground (arith, same)),
        (λ h. ground (arith, same), λ h. ground (arith, same)),
        (λ h. ground (arith, same), λ h. ground (arith, same)),
        (λ h. ground (arith, same), λ h. ground (arith, same)),
      )

  -- A token that the room's key signed is accepted for its room and peer at every time before its
  -- expiry, if the scheme verifies what it signs.
  pub verify-sign :
      ((key : SigningKey) (m : Bytes)
        → verify_bytes (verifying_key key) m (sign_bytes key m) ≡ true)
      → (room peer : Bytes) (expiry now : ℕ) (caps : List Bytes) (key : SigningKey) → now < expiry
      → verify scheme (sign scheme room peer expiry caps key) room (verifying_key key) peer now
        ≡ Verdict.accepted
  unfolding verify sign
  verify-sign correct room peer expiry now caps key h =
      simp (bytes_eq_refl, sort-sort bytes_cmp bytes_cmp-IsTotal, correct) (ground arith)

  -- The order in which the capabilities are listed does not change the token.
  pub sign-perm :
      (room peer : Bytes) (expiry : ℕ) (caps caps' : List Bytes) (key : SigningKey)
      → Permᴰ caps caps'
      → sign scheme room peer expiry caps key ≡ sign scheme room peer expiry caps' key
  unfolding sign
  sign-perm room peer expiry caps caps' key p = rw (sort-perm bytes_cmp bytes_cmp-IsTotal p)
