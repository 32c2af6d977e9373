-- ===== src/Tests/Access.antt =====
-- Write policies, capabilities and room tokens at concrete inputs.
use mathlib.Core.List.{Permᴰ}
use nodalmerge.Base.{
  some, ℕ, ◌≤◌, ◌<◌, ◌≡◌, ◌≢◌, ◌↔◌, ◌⊎◌, refl, true, false, Bytes, List, [], ◌∷◌, ◌++◌, arith, All,
  bytes_cmp, bytes_eq, bytes_eq_refl, contains,
}
use nodalmerge.Base.Sort.{sort}
use nodalmerge.Policy.{Policy, PolicyDefault, can_write, glob_matches_inner, star}
use nodalmerge.Policy.Writers.{FirstCoverLists, NoneCovers, can_write_iff}
use nodalmerge.Capabilities.{
  SyncCapabilities, default_capabilities, intersect, IsWithin, intersect-IsGreatest,
}
use nodalmerge.Token.{
  SignatureScheme, RoomToken, Verdict, TokenError, sign, verify, token_message, newline,
}
use nodalmerge.Token.Messages.{token_message-injective, token_message_collisions}
use nodalmerge.Token.Verify.{verify_iff, verify-sign, sign-perm}

-- author 7 may write below `a`, and nobody else may write anything
abbrev guarded : Policy
guarded = record {
  rules =
      record {
        path_glob = b'a' ∷ star ∷ [];
        can_write_keys = 7 ∷ [];
        can_read_keys = [];
        can_derive_keys = [];
      }
      ∷ [];
  default = PolicyDefault.deny_all;
}

guarded_writers :
    (can_write guarded (b'a' ∷ b'b' ∷ []) 7 ≡ true)
    × (can_write guarded (b'a' ∷ b'b' ∷ []) 8 ≡ false)
    × (can_write guarded (b'c' ∷ []) 7 ≡ false)
unfolding can_write glob_matches_inner contains
guarded_writers = (refl, refl, refl)

can_write_iff_example : (can_write guarded (b'a' ∷ []) 7 ≡ true) ↔ (
    FirstCoverLists guarded.rules (b'a' ∷ []) 7
    ⊎ (NoneCovers (b'a' ∷ []) guarded.rules × (guarded.default ≡ PolicyDefault.allow_all)))
can_write_iff_example = can_write_iff guarded (b'a' ∷ []) 7

abbrev offline_capabilities : SyncCapabilities
offline_capabilities = record default_capabilities { supports_webrtc = true; supports_mst = false }

abbrev slow_capabilities : SyncCapabilities
slow_capabilities = record offline_capabilities { max_tick_interval_ms = some 200 }

intersect-IsGreatest_example :
    IsWithin slow_capabilities (intersect default_capabilities offline_capabilities) ↔ (
      IsWithin slow_capabilities default_capabilities
      × IsWithin slow_capabilities offline_capabilities)
intersect-IsGreatest_example =
    intersect-IsGreatest default_capabilities offline_capabilities slow_capabilities

-- a scheme whose signature of a message is the message
abbrev echo_scheme : SignatureScheme
echo_scheme = record {
  SigningKey = ℕ;
  VerifyingKey = ℕ;
  verifying_key = λ key. key;
  sign_bytes = λ key m. key ∷ m;
  verify_bytes = λ key m s. bytes_eq (key ∷ m) s;
}

echo_correct :
    (key : ℕ) (m : Bytes)
    → echo_scheme.verify_bytes (echo_scheme.verifying_key key) m (echo_scheme.sign_bytes key m)
      ≡ true
echo_correct key m = bytes_eq_refl (key ∷ m)

abbrev room : Bytes
room = b'r' ∷ []

abbrev caps : List Bytes
caps = (b'b' ∷ []) ∷ (b'a' ∷ []) ∷ []

abbrev sorted_caps : List Bytes
sorted_caps = (b'a' ∷ []) ∷ (b'b' ∷ []) ∷ []

verify-sign_example :
    verify echo_scheme (sign echo_scheme room (9 ∷ []) 100 caps 5) room 5 (9 ∷ []) 99
    ≡ Verdict.accepted
verify-sign_example = verify-sign echo_scheme echo_correct room (9 ∷ []) 100 99 caps 5 (omega arith)

sign-perm_example :
    sign echo_scheme room (9 ∷ []) 100 caps 5 ≡ sign echo_scheme room (9 ∷ []) 100 sorted_caps 5
sign-perm_example =
    sign-perm echo_scheme room (9 ∷ []) 100 caps sorted_caps 5 (Permᴰ.swap refl refl)

abbrev forged : RoomToken
forged = record { peer_pubkey = 9 ∷ []; expiry_secs = 100; capabilities = []; signature = [] }

verify_iff_example :
    let message = token_message room (9 ∷ []) 100 (sort bytes_cmp []) in
    let verdict = verify echo_scheme forged room 5 (9 ∷ []) 99 in
    ((verdict ≡ Verdict.refused TokenError.peer_mismatch) ↔ (forged.peer_pubkey ≢ 9 ∷ []))
    × ((verdict ≡ Verdict.refused TokenError.expired)
        ↔ ((forged.peer_pubkey ≡ 9 ∷ []) × (100 ≤ 99)))
    × ((verdict ≡ Verdict.refused TokenError.bad_signature) ↔ (
        (forged.peer_pubkey ≡ 9 ∷ [])
        × (99 < 100)
        × (echo_scheme.verify_bytes 5 message [] ≡ false)))
    × ((verdict ≡ Verdict.accepted) ↔ (
        (forged.peer_pubkey ≡ 9 ∷ [])
        × (99 < 100)
        × (echo_scheme.verify_bytes 5 message [] ≡ true)))
verify_iff_example = verify_iff echo_scheme forged room 5 (9 ∷ []) 99

-- the bytes of a public key
abbrev peer_key : Bytes
peer_key =
    1 ∷ 2 ∷ 3 ∷ 4 ∷ 5 ∷ 6 ∷ 7 ∷ 8 ∷ 1 ∷ 2 ∷ 3 ∷ 4 ∷ 5 ∷ 6 ∷ 7 ∷ 8 ∷ 1 ∷ 2 ∷ 3 ∷ 4 ∷ 5 ∷ 6 ∷ 7 ∷ 8
    ∷ 1 ∷ 2 ∷ 3 ∷ 4 ∷ 5 ∷ 6 ∷ 7 ∷ 8 ∷ []

token_message-injective_example :
    (room ≡ room) × (peer_key ≡ peer_key) × (◌≡◌ {A = ℕ} 100 100) × (sorted_caps ≡ sorted_caps)
token_message-injective_example =
    token_message-injective room room peer_key peer_key 100 100 sorted_caps sorted_caps
      (omega arith) (omega arith) refl refl (omega arith) (omega arith) plain plain refl
  where
    plain : All (λ s. (s ≢ []) × All (λ b. b ≢ newline) s) sorted_caps
    plain = (((λ e. cc), omega arith), (((λ e. cc), omega arith), tt))

token_message_collisions_example :
    (token_message room peer_key 100 ([] ∷ []) ≡ token_message room peer_key 100 [])
    × (token_message room peer_key 100 (((b'a' ∷ []) ++ (newline ∷ b'b' ∷ [])) ∷ [])
        ≡ token_message room peer_key 100 sorted_caps)
token_message_collisions_example =
    token_message_collisions room peer_key 100 (b'a' ∷ []) (b'b' ∷ []) []
