-- ===== src/Capabilities.antt =====
-- core/crdt/src/capabilities.rs: the features that both peers of a session support.
use nodalmerge.Base.{ℕ, max, ◌≡◌, ◌≤◌, ◌↔◌, Bool, true, false, ◌&&◌, Option, none, some, arith}

pub record SyncCapabilities : Type 0 where
  pub supports_ibf : Bool
  pub supports_mst : Bool
  pub supports_postcard : Bool
  pub supports_encryption : Bool
  pub supports_webrtc : Bool
  pub max_tick_interval_ms : Option ℕ
  pub supports_list_crdt : Bool
  pub supports_direct_blob_io : Bool

-- `SyncCapabilities::default()`
abbrev pub default_capabilities : SyncCapabilities
default_capabilities = record {
  supports_ibf = true;
  supports_mst = true;
  supports_postcard = true;
  supports_encryption = true;
  supports_webrtc = false;
  max_tick_interval_ms = none;
  supports_list_crdt = true;
  supports_direct_blob_io = true;
}

-- the larger of two intervals, if both peers batch
unfoldable pub join_interval : Option ℕ → Option ℕ → Option ℕ
join_interval (some a) (some b) = some (max a b)
join_interval _ _ = none

unfoldable pub intersect : SyncCapabilities → SyncCapabilities → SyncCapabilities
unfolding join_interval
intersect a b = record {
  supports_ibf = a.supports_ibf && b.supports_ibf;
  supports_mst = a.supports_mst && b.supports_mst;
  supports_postcard = a.supports_postcard && b.supports_postcard;
  supports_encryption = a.supports_encryption && b.supports_encryption;
  supports_webrtc = a.supports_webrtc && b.supports_webrtc;
  max_tick_interval_ms = join_interval a.max_tick_interval_ms b.max_tick_interval_ms;
  supports_list_crdt = a.supports_list_crdt && b.supports_list_crdt;
  supports_direct_blob_io = a.supports_direct_blob_io && b.supports_direct_blob_io;
}

-- The second set has each feature that the first has, and batches ticks if the first does, at an interval
-- that is no larger.
abbrev pub IsFeature : Bool → Bool → Type 0
IsFeature less more = less ≡ true → more ≡ true

abbrev pub IsInterval : Option ℕ → Option ℕ → Type 0
IsInterval none more = Unit
IsInterval (some a) none = ⊥
IsInterval (some a) (some b) = b ≤ a

abbrev pub IsWithin : SyncCapabilities → SyncCapabilities → Type 0
IsWithin less more =
    IsFeature less.supports_ibf more.supports_ibf
    × IsFeature less.supports_mst more.supports_mst
    × IsFeature less.supports_postcard more.supports_postcard
    × IsFeature less.supports_encryption more.supports_encryption
    × IsFeature less.supports_webrtc more.supports_webrtc
    × IsInterval less.max_tick_interval_ms more.max_tick_interval_ms
    × IsFeature less.supports_list_crdt more.supports_list_crdt
    × IsFeature less.supports_direct_blob_io more.supports_direct_blob_io

IsFeature-both : (a b c : Bool) → IsFeature c (a && b) ↔ (IsFeature c a × IsFeature c b)
IsFeature-both a b c = (
  λ h. (λ k. ground (arith, h k), λ k. ground (arith, h k)),
  λ (f, g) k. ground (arith, f k, g k),
)

IsInterval-both :
    (a b c : Option ℕ) → IsInterval c (join_interval a b) ↔ (IsInterval c a × IsInterval c b)
unfolding join_interval
IsInterval-both a b none = (λ h. (tt, tt), λ h. tt)
IsInterval-both none b (some n) = (λ h. absurd h, λ h. absurd h.0)
IsInterval-both (some x) none (some n) = (λ h. absurd h, λ h. absurd h.1)
IsInterval-both (some x) (some y) (some n) =
    (λ h. (ground (arith, h), ground (arith, h)), λ (f, g). ground (arith, f, g))

-- What negotiation gives is the largest set within the sets of both peers: another set is within it
-- exactly when it is within both. One set is within another if each of its features is the other's, and
-- if, where it batches ticks, the other does so at an interval that is no larger. So the larger of two
-- intervals is the negotiated one; a limit to what a peer accepts, as the documentation describes the
-- interval, would need the smaller.
pub intersect-IsGreatest :
    (a b c : SyncCapabilities) → IsWithin c (intersect a b) ↔ (IsWithin c a × IsWithin c b)
unfolding intersect
intersect-IsGreatest a b c =
    let (f1, g1) = IsFeature-both a.supports_ibf b.supports_ibf c.supports_ibf in
    let (f2, g2) = IsFeature-both a.supports_mst b.supports_mst c.supports_mst in
    let (f3, g3) = IsFeature-both a.supports_postcard b.supports_postcard c.supports_postcard in
    let (f4, g4) =
      IsFeature-both a.supports_encryption b.supports_encryption c.supports_encryption in
    let (f5, g5) = IsFeature-both a.supports_webrtc b.supports_webrtc c.supports_webrtc in
    let (f6, g6) =
      IsInterval-both a.max_tick_interval_ms b.max_tick_interval_ms c.max_tick_interval_ms in
    let (f7, g7) = IsFeature-both a.supports_list_crdt b.supports_list_crdt c.supports_list_crdt in
    let (f8, g8) =
      IsFeature-both a.supports_direct_blob_io b.supports_direct_blob_io
        c.supports_direct_blob_io in
    (
      λ (h1, h2, h3, h4, h5, h6, h7, h8). (
        ((f1 h1).0, (f2 h2).0, (f3 h3).0, (f4 h4).0, (f5 h5).0, (f6 h6).0, (f7 h7).0, (f8 h8).0),
        ((f1 h1).1, (f2 h2).1, (f3 h3).1, (f4 h4).1, (f5 h5).1, (f6 h6).1, (f7 h7).1, (f8 h8).1),
      ),
      λ ((h1, h2, h3, h4, h5, h6, h7, h8), (k1, k2, k3, k4, k5, k6, k7, k8)). (
        g1 (h1, k1),
        g2 (h2, k2),
        g3 (h3, k3),
        g4 (h4, k4),
        g5 (h5, k5),
        g6 (h6, k6),
        g7 (h7, k7),
        g8 (h8, k8),
      ),
    )
