-- ===== src/Replay/Timeline.antt =====
-- The policy in force at a lamport, and a replay that meets a clock far ahead, in
-- core/crdt/src/replay.rs.
use nodalmerge.Base.{
  ℕ, ◌<◌, ◌≡◌, refl, Bool, false, List, [], ◌∷◌, arith, leb, Bool-cases, inl, inr, retain,
}
use nodalmerge.Base.Sort.{IsSorted}
use nodalmerge.Error.{SyncError, err}
use nodalmerge.Node.{SyncNode, transaction_hash}
use nodalmerge.Policy.{Policy}
use nodalmerge.Graph.{Env, lamport_slack, check_lamport_ceiling, saturating_add, set_policy}
use nodalmerge.Graph.Remote.{apply_remote, apply_remote_checked, check_node, check_hash}
use nodalmerge.Replay.{
  PolicyTimelineEntry, by_lamport, policy_for_lamport, attempt_of, retry_pass, retry_loop,
  prepare_policy, unless_pending, replay_graph,
}

-- the policy of the last entry of a list, or the given one
unfoldable pub last_policy : List PolicyTimelineEntry → Policy → Policy
last_policy [] selected = selected
last_policy (entry ∷ timeline) selected = last_policy timeline entry.policy

abbrev pub in_force : ℕ → PolicyTimelineEntry → Bool
in_force lamport entry = leb entry.effective_lamport lamport

-- an entry of a sorted timeline that is not in force is followed by none that is
none_later :
    (lamport : ℕ) (entry : PolicyTimelineEntry) (timeline : List PolicyTimelineEntry)
    → IsSorted by_lamport (entry ∷ timeline)
    → in_force lamport entry ≡ false
    → retain (in_force lamport) timeline ≡ []
unfolding retain by_lamport
none_later lamport entry [] sorted ahead = refl
none_later lamport entry (next ∷ timeline) sorted ahead =
    let later : in_force lamport next ≡ false = ground arith in
    rw later (none_later lamport next timeline sorted.1 later)

tail-IsSorted :
    (entry : PolicyTimelineEntry) (timeline : List PolicyTimelineEntry)
    → IsSorted by_lamport (entry ∷ timeline)
    → IsSorted by_lamport timeline
tail-IsSorted entry [] sorted = tt
tail-IsSorted entry (next ∷ timeline) sorted = sorted.1

-- In a timeline that is sorted by lamport, the policy selected for a lamport is that of the last of
-- the entries in force, those whose lamport is not above it, or the default if there is none.
pub policy_for_lamport-last_policy :
    (lamport : ℕ) (timeline : List PolicyTimelineEntry) (default : Policy)
    → IsSorted by_lamport timeline
    → policy_for_lamport lamport timeline default
      ≡ last_policy (retain (in_force lamport) timeline) default
unfolding policy_for_lamport last_policy retain
policy_for_lamport-last_policy lamport [] default sorted = refl
policy_for_lamport-last_policy lamport (entry ∷ timeline) default sorted =
    elim (Bool-cases (in_force lamport entry)) [
      | inl now ↦ rw now (
          policy_for_lamport-last_policy lamport timeline entry.policy
            (tail-IsSorted entry timeline sorted))
      | inr ahead ↦ rw (ahead, none_later lamport entry timeline sorted ahead) refl
    ]

module _ {P : Type 0} (env : Env P) where
  -- A replay fails if the clock of its first node is ahead of zero by more than the slack, whatever
  -- nodes come after it.
  pub replay_graph-ceiling :
      (projections : P) (node : SyncNode) (nodes : List SyncNode)
      (timeline : List PolicyTimelineEntry)
      → transaction_hash env.crypto node.transaction ≡ node.id
      → lamport_slack < node.transaction.lamport
      → replay_graph env projections (node ∷ nodes) timeline
        ≡ err (SyncError.lamport_ceiling node.id node.transaction.lamport lamport_slack)
  unfolding replay_graph retry_loop retry_pass attempt_of unless_pending apply_remote
      apply_remote_checked check_node check_hash check_lamport_ceiling saturating_add prepare_policy
      set_policy
  replay_graph-ceiling projections node nodes timeline hash ahead = ground arith
