-- ===== src/Replay.antt =====
-- core/crdt/src/replay.rs: the replay of a set of nodes under a timeline of policies, and the hash of
-- the state that it gives. The entries of a resolved map stand in the order of their keys, which are
-- among the keys that the stored nodes write. The loop that retries the nodes whose parents are
-- missing is that of `rebuild_from_snapshot` in compaction.rs too; it counts rounds, at most one for
-- each node. The postcard form of a timeline is a parameter.
pub mod Settle
pub mod Rounds
pub mod Canonical
pub mod Entries
pub mod Timeline
pub mod Keeps
use Prim.Native.Nat.{compare, Ordering}
use nodalmerge.Base.{
  ℕ, zero, suc, max, Bool, not, Bytes, List, [], ◌∷◌, ◌++◌, Option, none, some, leb, ◌==◌,
  if◌then◌else◌, length, bytes_eq, bytes_cmp, StringMap,
}
use nodalmerge.Base.Endian.{le_bytes}
use nodalmerge.Base.Sort.{sort, insert_new}
use nodalmerge.Op.{Op, map_key}
use nodalmerge.Error.{SyncError, Result, ok, err}
use nodalmerge.Node.{SyncNode, Crypto}
use nodalmerge.Policy.{Policy, open_policy}
use nodalmerge.Lww.{resolve_map}
use nodalmerge.Graph.{StateGraph, Env, new_graph, set_policy}
use nodalmerge.Graph.Remote.{apply_remote}

pub record PolicyTimelineEntry : Type 0 where
  pub effective_lamport : ℕ
  pub policy : Policy

-- the key of `sort_by_key`, whose sort keeps equal elements in their order
unfoldable pub by_lamport : PolicyTimelineEntry → PolicyTimelineEntry → Ordering
by_lamport a b = compare a.effective_lamport b.effective_lamport

unfoldable pub sorted_timeline : List PolicyTimelineEntry → List PolicyTimelineEntry
sorted_timeline timeline = sort by_lamport timeline

-- the loop, with the policy selected so far
unfoldable pub policy_for_lamport : ℕ → List PolicyTimelineEntry → Policy → Policy
policy_for_lamport lamport [] selected = selected
policy_for_lamport lamport (entry ∷ timeline) selected =
    if leb entry.effective_lamport lamport
    then policy_for_lamport lamport timeline entry.policy
    else selected

unfoldable pub policy_timeline_cutover_lamport : List PolicyTimelineEntry → Option ℕ
policy_timeline_cutover_lamport [] = none
policy_timeline_cutover_lamport (entry ∷ timeline) =
    elim (policy_timeline_cutover_lamport timeline) [
      | none ↦ some entry.effective_lamport
      | some latest ↦ some (max entry.effective_lamport latest)
    ]

-- the bytes that `canonical_hash` feeds to the hasher; `as u32` keeps the low four bytes
unfoldable pub canonical_bytes : List (Bytes × Bytes) → Bytes
canonical_bytes [] = []
canonical_bytes ((key, value) ∷ entries) =
    le_bytes 4 (length key)
    ++ (key ++ (le_bytes 4 (length value) ++ (value ++ canonical_bytes entries)))

unfoldable pub canonical_hash : Crypto → List (Bytes × Bytes) → ℕ
unfolding canonical_bytes
canonical_hash c entries = c.blake3 (canonical_bytes entries)

-- How a map that is a function is listed: at the keys that the graph's operations write, in order and once
-- each. The source has a map that it goes through.
unfoldable pub touched_by_ops : List Op → List Bytes → List Bytes
touched_by_ops [] keys = keys
touched_by_ops (Op.map mop ∷ ops) keys =
    touched_by_ops ops (insert_new bytes_cmp (map_key mop) keys)
touched_by_ops (Op.list l ∷ ops) keys = touched_by_ops ops keys
touched_by_ops (Op.text t ∷ ops) keys = touched_by_ops ops keys

unfoldable pub touched_keys : List SyncNode → List Bytes
unfolding touched_by_ops
touched_keys [] = []
touched_keys (n ∷ nodes) = touched_by_ops n.transaction.ops (touched_keys nodes)

-- the entries of a map that a filter keeps, at the given keys
unfoldable pub entries_at : (Bytes → Bool) → List Bytes → StringMap Bytes → List (Bytes × Bytes)
entries_at keep [] m = []
entries_at keep (key ∷ keys) m = elim (m key) [
  | none ↦ entries_at keep keys m
  | some value ↦ let rest = entries_at keep keys m in if keep key then (key, value) ∷ rest else rest
]

-- `resolve().into_iter().filter(..).collect()` into a `BTreeMap`
unfoldable pub resolved_entries :
    {P : Type 0} → (Bytes → Bool) → StateGraph P → List (Bytes × Bytes)
unfolding touched_keys entries_at
resolved_entries keep g =
    entries_at keep (touched_keys g.nodes.entries) (resolve_map g.state_caches.map_all)

-- `E2EE_KEY`, which is not part of the replayed state
abbrev pub e2ee_key : Bytes
e2ee_key = 0 ∷ b'e' ∷ b'2' ∷ b'e' ∷ b'e' ∷ []

unfoldable pub not_encrypted : Bytes → Bool
not_encrypted key = not (bytes_eq key e2ee_key)

pub record ResolvedState : Type 0 where
  pub map : List (Bytes × Bytes)
  pub hash : ℕ

-- what the retry loops make of an answer
pub data Attempt : Type 0 where
  settled : Attempt
  deferred : Attempt
  failed : SyncError → Attempt

unfoldable pub attempt_of : Result (Unit {0}) → Attempt
attempt_of (ok _) = Attempt.settled
attempt_of (err (SyncError.duplicate_node id)) = Attempt.settled
attempt_of (err (SyncError.missing_parent id)) = Attempt.deferred
attempt_of (err e) = Attempt.failed e

unfoldable pub defer :
    {P : Type 0}
    → SyncNode
    → Result (List SyncNode × StateGraph P)
    → Result (List SyncNode × StateGraph P)
defer node (ok (still_pending, g)) = ok (node ∷ still_pending, g)
defer node (err e) = err e

module _ {P : Type 0} (env : Env P) where
  open env use {crypto}

  -- one pass over the pending nodes, with what is done before each is applied
  unfoldable pub retry_pass :
      (SyncNode → StateGraph P → StateGraph P)
      → List SyncNode
      → StateGraph P
      → Result (List SyncNode × StateGraph P)
  unfolding attempt_of defer
  retry_pass prepare [] g = ok ([], g)
  retry_pass prepare (node ∷ pending) g =
      let r = apply_remote env node (prepare node g) in
      elim (attempt_of r.1) [
        | settled ↦ retry_pass prepare pending r.0
        | deferred ↦ defer node (retry_pass prepare pending r.0)
        | failed e ↦ err e
      ]

  -- the loop, until nothing is pending or a pass makes no progress
  unfoldable pub retry_loop :
      (SyncNode → StateGraph P → StateGraph P)
      → ℕ
      → List SyncNode
      → StateGraph P
      → Result (List SyncNode × StateGraph P)
  retry_loop prepare zero pending g = ok (pending, g)
  retry_loop prepare (suc rounds) [] g = ok ([], g)
  retry_loop prepare (suc rounds) (node ∷ pending) g =
      elim (retry_pass prepare (node ∷ pending) g) [
        | err e ↦ err e
        | ok (still_pending, g') ↦
            let next = retry_loop prepare rounds still_pending g' in
            if length still_pending == suc (length pending) then ok (still_pending, g') else next
      ]

  -- `pending[0].parents().first().copied().unwrap_or(pending[0].id)`
  unfoldable pub first_parent : SyncNode → List ℕ → ℕ
  first_parent node [] = node.id
  first_parent node (p ∷ parents) = p

  -- the policy that is in force at a node's lamport
  unfoldable pub prepare_policy : List PolicyTimelineEntry → SyncNode → StateGraph P → StateGraph P
  unfolding set_policy
  prepare_policy sorted node g =
      set_policy (policy_for_lamport node.transaction.lamport sorted open_policy) g

  unfoldable pub unless_pending : Result (List SyncNode × StateGraph P) → Result (StateGraph P)
  unfolding first_parent
  unless_pending (err e) = err e
  unless_pending (ok ([], g)) = ok g
  unless_pending (ok (node ∷ pending, g)) =
      err (SyncError.missing_parent (first_parent node node.transaction.parents))

  -- the graph that `replay_with_policy_timeline` builds
  unfoldable pub replay_graph : P → List SyncNode → List PolicyTimelineEntry → Result (StateGraph P)
  unfolding retry_loop unless_pending
  replay_graph projections nodes timeline = unless_pending (
      retry_loop (prepare_policy (sorted_timeline timeline)) (length nodes) nodes
        (new_graph projections))

  unfoldable pub resolved_state : Result (StateGraph P) → Result ResolvedState
  unfolding not_encrypted
  resolved_state (err e) = err e
  resolved_state (ok g) =
      let entries = resolved_entries not_encrypted g in
      ok (record { map = entries; hash = canonical_hash crypto entries })

  unfoldable pub replay_with_policy_timeline :
      P → List SyncNode → List PolicyTimelineEntry → Result ResolvedState
  unfolding resolved_state
  replay_with_policy_timeline projections nodes timeline =
      resolved_state (replay_graph projections nodes timeline)

  unfoldable pub replay : P → List SyncNode → Option Policy → Result ResolvedState
  unfolding replay_with_policy_timeline
  replay projections nodes none = replay_with_policy_timeline projections nodes []
  replay projections nodes (some policy) =
      replay_with_policy_timeline projections nodes
        (record { effective_lamport = 0; policy = policy } ∷ [])
