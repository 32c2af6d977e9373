-- ===== src/Caches/Replay.antt =====
-- The winners that the caches keep, against the full replay of core/crdt/src/graph.rs.
use nodalmerge.Base.{
  ℕ, ◌≡◌, inl, inr, refl, ap, sym, ◌∙◌, Bool, true, false, not, ◌&&◌, Bytes, List, [], ◌∷◌, Option,
  none, some, if◌then◌else◌, StringMap, bytes_eq, bytes_eq→eq, Bool-cases, or_else, empty_map,
  contains, fun_ext,
}
use nodalmerge.Base.Folds.{run, run-part}
use nodalmerge.Base.Prio.{gtp, eqp, zero_prio, gtp-zero, gtp_of_zero}
use nodalmerge.Op.{Op, MapOp, Transaction, prio, map_key}
use nodalmerge.Node.{SyncNode}
use nodalmerge.Lww.{
  MapWinner, winner_prio, better, map_candidate, winner_value, resolve_map, ReplayEntry,
  fresh_entry, replay_value, replay_set, replay_ops, replay_nodes, entry_value, resolve_replay,
}
use nodalmerge.Caches.{StateCaches, empty_caches, update_state_caches}
use nodalmerge.Caches.Slots.{
  first_candidate, offer, offer_step, node_slot, candidate_prio, update-map_all,
  update-map_canonical, update-map_canonical_local,
}

-- the entry of the replay that stands for a slot of the cache
unfoldable rep : Option MapWinner → ReplayEntry
rep none = fresh_entry
rep (some w) = record { at = winner_prio w; value = w.value }

rep-none : fresh_entry ≡ rep none
unfolding rep
rep-none = refl

-- what a slot and its entry answer
rep-value :
    (slot : Option MapWinner) (e : Option ReplayEntry)
    → or_else e fresh_entry ≡ rep slot
    → entry_value e ≡ winner_value slot
unfolding rep entry_value winner_value
rep-value none none h = refl
rep-value none (some x) h = ap (λ (r : ReplayEntry). r.value) h
rep-value (some w) none h = ap (λ (r : ReplayEntry). r.value) h
rep-value (some w) (some x) h = ap (λ (r : ReplayEntry). r.value) h

candidate-rep :
    (tx : Transaction) (mop : MapOp)
    → rep (some (map_candidate tx mop)) ≡ record { at = prio tx; value = replay_value mop }
unfolding rep map_candidate replay_value
candidate-rep tx (MapOp.set key value) = refl
candidate-rep tx (MapOp.delete key) = refl
candidate-rep tx (MapOp.set_blob key blob_hash) = refl

-- the comparison of the replay does what `better` does, unless the node has no priority
rep-better :
    (tx : Transaction) (mop : MapOp) (slot : Option MapWinner)
    → eqp (prio tx) zero_prio ≡ false
    → (if gtp (prio tx) (rep slot).at
        then record { at = prio tx; value = replay_value mop }
        else rep slot)
      ≡ rep (some (better slot (map_candidate tx mop)))
unfolding better rep
rep-better tx mop none live = rw (gtp-zero (prio tx), live) (sym (candidate-rep tx mop))
rep-better tx mop (some w) live = elim (Bool-cases (gtp (prio tx) (winner_prio w))) [
  | inl wins ↦ rw (candidate_prio tx mop, wins) (sym (candidate-rep tx mop))
  | inr loses ↦ rw (candidate_prio tx mop, loses)
]

module _ (tx : Transaction) (key : Bytes) where
  replay_set-rep :
      (mop : MapOp) (m : StringMap ReplayEntry) (slot : Option MapWinner)
      → eqp (prio tx) zero_prio ≡ false
      → or_else (m key) fresh_entry ≡ rep slot
      → or_else (replay_set tx (map_key mop) (replay_value mop) m key) fresh_entry
        ≡ rep
            (if bytes_eq (map_key mop) key then some (better slot (map_candidate tx mop)) else slot)
  unfolding replay_set
  replay_set-rep mop m slot live h = elim (Bool-cases (bytes_eq (map_key mop) key)) [
    | inl hit ↦
        let here : or_else (m (map_key mop)) fresh_entry ≡ rep slot =
          ap (λ k. or_else (m k) fresh_entry) (bytes_eq→eq (map_key mop) key hit) ∙ h in
        rw (hit, here) (rep-better tx mop slot live)
    | inr miss ↦ rw miss h
  ]

  replay_set-zero :
      (k : Bytes) (v : Option Bytes) (m : StringMap ReplayEntry)
      → eqp (prio tx) zero_prio ≡ true
      → or_else (replay_set tx k v m key) fresh_entry ≡ or_else (m key) fresh_entry
  unfolding replay_set
  replay_set-zero k v m zero = elim (Bool-cases (bytes_eq k key)) [
    | inl hit ↦
        rw (hit, gtp_of_zero (prio tx) (or_else (m k) fresh_entry).at zero)
          (ap (λ j. or_else (m j) fresh_entry) (bytes_eq→eq k key hit))
    | inr miss ↦ rw miss
  ]

  -- the operations of one node
  replay_ops-rep :
      (ops : List Op) (m : StringMap ReplayEntry) (slot : Option MapWinner)
      → eqp (prio tx) zero_prio ≡ false
      → or_else (m key) fresh_entry ≡ rep slot
      → or_else (replay_ops tx ops m key) fresh_entry
        ≡ rep (offer (first_candidate tx key ops) slot)
  unfolding replay_ops first_candidate offer
  replay_ops-rep [] m slot live h = h
  replay_ops-rep (Op.list l ∷ ops) m slot live h = replay_ops-rep ops m slot live h
  replay_ops-rep (Op.text t ∷ ops) m slot live h = replay_ops-rep ops m slot live h
  replay_ops-rep (Op.map mop ∷ ops) m slot live h =
      replay_ops-rep ops (replay_set tx (map_key mop) (replay_value mop) m)
        (if bytes_eq (map_key mop) key then some (better slot (map_candidate tx mop)) else slot)
        live (replay_set-rep mop m slot live h)
      ∙ ap rep (offer_step tx key mop ops slot)

  replay_ops-zero :
      (ops : List Op) (m : StringMap ReplayEntry)
      → eqp (prio tx) zero_prio ≡ true
      → or_else (replay_ops tx ops m key) fresh_entry ≡ or_else (m key) fresh_entry
  unfolding replay_ops
  replay_ops-zero [] m zero = refl
  replay_ops-zero (Op.list l ∷ ops) m zero = replay_ops-zero ops m zero
  replay_ops-zero (Op.text t ∷ ops) m zero = replay_ops-zero ops m zero
  replay_ops-zero (Op.map mop ∷ ops) m zero =
      replay_ops-zero ops (replay_set tx (map_key mop) (replay_value mop) m) zero
      ∙ replay_set-zero (map_key mop) (replay_value mop) m zero

node-rep :
    (node : SyncNode) (key : Bytes) (m : StringMap ReplayEntry) (slot : Option MapWinner)
    → or_else (m key) fresh_entry ≡ rep slot
    → or_else (replay_ops node.transaction node.transaction.ops m key) fresh_entry
      ≡ rep (node_slot key node slot)
unfolding node_slot
node-rep node key m slot h = elim (Bool-cases (eqp (prio node.transaction) zero_prio)) [
  | inl zero ↦ rw zero (replay_ops-zero node.transaction key node.transaction.ops m zero ∙ h)
  | inr live ↦ rw live (replay_ops-rep node.transaction key node.transaction.ops m slot live h)
]

-- a node of the canonical view, or one that is left out of it
unfoldable slot_unless : Bool → Bytes → SyncNode → Option MapWinner → Option MapWinner
slot_unless skipped key node slot = if skipped then slot else node_slot key node slot

nodes-rep :
    (skip_local : Bool) (local_ids : List ℕ) (key : Bytes) (nodes : List SyncNode)
    (m : StringMap ReplayEntry) (slot : Option MapWinner)
    → or_else (m key) fresh_entry ≡ rep slot
    → or_else (replay_nodes skip_local local_ids nodes m key) fresh_entry
      ≡ rep (
          run
            (λ (n : SyncNode). slot_unless (skip_local && contains local_ids n.id) key n)
            nodes
            slot)
unfolding replay_nodes run slot_unless
nodes-rep skip_local local_ids key [] m slot h = h
nodes-rep skip_local local_ids key (n ∷ nodes) m slot h =
    elim (Bool-cases (skip_local && contains local_ids n.id)) [
      | inl skip ↦ rw skip (nodes-rep skip_local local_ids key nodes m slot h)
      | inr take ↦ rw take (
          nodes-rep skip_local local_ids key nodes (replay_ops n.transaction n.transaction.ops m)
            (node_slot key n slot) (node-rep n key m slot h))
    ]

-- what one node does to the canonical map
update-slot_unless :
    (node : SyncNode) (s : StateCaches) (key : Bytes) (local : Bool)
    → (update_state_caches node (not local) s).map_canonical key
      ≡ slot_unless local key node (s.map_canonical key)
unfolding slot_unless
update-slot_unless node s key true =
    ap (λ (m : StringMap MapWinner). m key) (update-map_canonical_local node s)
update-slot_unless node s key false = update-map_canonical node s key

-- nodes admitted one after the other, the local ones as unconfirmed
unfoldable pub admit_marked : List ℕ → List SyncNode → StateCaches → StateCaches
unfolding run
admit_marked local_ids =
    run (λ (n : SyncNode). update_state_caches n (not (contains local_ids n.id)))

-- The views that the caches give, speculative and canonical, are those of a full replay of the
-- nodes, with the local nodes left out of the canonical one.
pub admit_marked-resolve_replay :
    (local_ids : List ℕ) (nodes : List SyncNode)
    → (resolve_map (admit_marked local_ids nodes empty_caches).map_all
        ≡ resolve_replay false local_ids nodes)
      × (resolve_map (admit_marked local_ids nodes empty_caches).map_canonical
          ≡ resolve_replay true local_ids nodes)
unfolding admit_marked resolve_map resolve_replay slot_unless
admit_marked-resolve_replay local_ids nodes = (
  fun_ext (λ key.
      ap winner_value (
        run-part _ (λ t. t.map_all key) (slot_unless false key)
          (λ n t. update-map_all n t (not (contains local_ids n.id)) key) nodes empty_caches)
      ∙ sym (
          rep-value _ (replay_nodes false local_ids nodes empty_map key)
            (nodes-rep false local_ids key nodes empty_map none rep-none))),
  fun_ext (λ key.
      ap winner_value (
        run-part _ (λ t. t.map_canonical key) (λ n. slot_unless (contains local_ids n.id) key n)
          (λ n t. update-slot_unless n t key (contains local_ids n.id)) nodes empty_caches)
      ∙ sym (
          rep-value _ (replay_nodes true local_ids nodes empty_map key)
            (nodes-rep true local_ids key nodes empty_map none rep-none))),
)
