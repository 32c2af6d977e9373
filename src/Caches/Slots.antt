-- ===== src/Caches/Slots.antt =====
-- What one node does to one part of the views: the slot of a key, a blob hash, an item of a list.
use nodalmerge.Base.{
  ◌≡◌, inl, inr, refl, ap, sym, ◌∙◌, Bool, true, false, Bytes, List, [], ◌∷◌, Option, none, some,
  if◌then◌else◌, StringMap, bytes_eq, bytes_eq→eq, Bool-cases,
}
use nodalmerge.Base.Prio.{Prio, eqp, zero_prio}
use nodalmerge.Op.{Op, MapOp, ListOp, Transaction, prio, map_key}
use nodalmerge.Node.{SyncNode}
use nodalmerge.Lww.{MapWinner, winner_prio, better, lww_update, map_candidate}
use nodalmerge.Lww.Winners.{better_again}
use nodalmerge.Caches.{
  StateCaches, apply_map_op, apply_list_op, apply_op, apply_ops, update_state_caches,
  update_list_conflict_state, list_conflict_arm, position_conflict_state, delete_conflict_state,
}

-- the first candidate for a key among the operations of a node
unfoldable pub first_candidate : Transaction → Bytes → List Op → Option MapWinner
first_candidate tx key [] = none
first_candidate tx key (Op.map mop ∷ ops) =
    if bytes_eq (map_key mop) key then some (map_candidate tx mop) else first_candidate tx key ops
first_candidate tx key (Op.list l ∷ ops) = first_candidate tx key ops
first_candidate tx key (Op.text t ∷ ops) = first_candidate tx key ops

unfoldable pub offer : Option MapWinner → Option MapWinner → Option MapWinner
offer none slot = slot
offer (some c) slot = some (better slot c)

-- what a node does to the slot of a key
unfoldable pub node_slot : Bytes → SyncNode → Option MapWinner → Option MapWinner
unfolding first_candidate offer
node_slot key node slot =
    if eqp (prio node.transaction) zero_prio
    then slot
    else offer (first_candidate node.transaction key node.transaction.ops) slot

pub candidate_prio : (tx : Transaction) (mop : MapOp) → winner_prio (map_candidate tx mop) ≡ prio tx
unfolding map_candidate
candidate_prio tx (MapOp.set key value) = refl
candidate_prio tx (MapOp.delete key) = refl
candidate_prio tx (MapOp.set_blob key blob_hash) = refl

-- list operations leave the maps and the blob hashes alone, and their conflict arm the lists too
pub record SameViews (s t : StateCaches) : Type 0 where
  pub all : t.map_all ≡ s.map_all
  pub canonical : t.map_canonical ≡ s.map_canonical
  pub blobs : t.blob_hashes ≡ s.blob_hashes
  pub same_lists : t.lists ≡ s.lists

arm-SameViews :
    (lop : ListOp) (at : Prio) (s : StateCaches) → SameViews s (list_conflict_arm lop at s)
unfolding list_conflict_arm position_conflict_state delete_conflict_state
arm-SameViews (ListOp.insert k i p) at s = record {
  all = refl;
  canonical = refl;
  blobs = refl;
  same_lists = refl;
}
arm-SameViews (ListOp.delete k i) at s = record {
  all = refl;
  canonical = refl;
  blobs = refl;
  same_lists = refl;
}
arm-SameViews (ListOp.move k i p) at s = record {
  all = refl;
  canonical = refl;
  blobs = refl;
  same_lists = refl;
}

pub conflict_state-SameViews :
    (lop : ListOp) (at : Prio) (s : StateCaches) → SameViews s (update_list_conflict_state lop at s)
unfolding update_list_conflict_state
conflict_state-SameViews lop at s =
    elim s.conflict_stream_enabled
      as (λ b. SameViews s (if b then list_conflict_arm lop at s else s)) [
        | true ↦ arm-SameViews lop at s
        | false ↦ record { all = refl; canonical = refl; blobs = refl; same_lists = refl }
      ]

module _ (tx : Transaction) (key : Bytes) where
  -- a later candidate of the same node changes nothing
  offer_again :
      (ops : List Op) (slot : Option MapWinner) (c : MapWinner)
      → winner_prio c ≡ prio tx
      → offer (first_candidate tx key ops) (some (better slot c)) ≡ some (better slot c)
  unfolding first_candidate offer
  offer_again [] slot c h = refl
  offer_again (Op.list l ∷ ops) slot c h = offer_again ops slot c h
  offer_again (Op.text t ∷ ops) slot c h = offer_again ops slot c h
  offer_again (Op.map mop ∷ ops) slot c h = elim (Bool-cases (bytes_eq (map_key mop) key)) [
    | inl hit ↦
        rw hit
          (ap some (better_again slot c (map_candidate tx mop) (h ∙ sym (candidate_prio tx mop))))
    | inr miss ↦ rw miss (offer_again ops slot c h)
  ]

  lww_update-slot :
      (m : StringMap MapWinner) (k : Bytes) (c : MapWinner)
      → lww_update m k c key ≡ (if bytes_eq k key then some (better (m key) c) else m key)
  unfolding lww_update
  lww_update-slot m k c = elim (Bool-cases (bytes_eq k key)) [
    | inl hit ↦ rw hit (ap (λ x. some (better (m x) c)) (bytes_eq→eq k key hit))
    | inr miss ↦ rw miss
  ]

  -- one map operation and the rest of the node, as one offer
  pub offer_step :
      (mop : MapOp) (ops : List Op) (slot : Option MapWinner)
      → offer
          (first_candidate tx key ops)
          (if bytes_eq (map_key mop) key then some (better slot (map_candidate tx mop)) else slot)
        ≡ offer (first_candidate tx key (Op.map mop ∷ ops)) slot
  unfolding first_candidate offer
  offer_step mop ops slot = elim (Bool-cases (bytes_eq (map_key mop) key)) [
    | inl hit ↦ rw hit (offer_again ops slot (map_candidate tx mop) (candidate_prio tx mop))
    | inr miss ↦ rw miss
  ]

  -- the slot of the speculative map after the operations of a node
  apply_ops-map_all :
      (canonical : Bool) (ops : List Op) (s : StateCaches)
      → (apply_ops tx canonical ops s).map_all key
        ≡ offer (first_candidate tx key ops) (s.map_all key)
  unfolding apply_ops apply_op apply_map_op apply_list_op first_candidate offer
  apply_ops-map_all canonical [] s = refl
  apply_ops-map_all canonical (Op.text t ∷ ops) s = apply_ops-map_all canonical ops s
  apply_ops-map_all canonical (Op.list lop ∷ ops) s =
      apply_ops-map_all canonical ops (apply_list_op tx lop s)
      ∙ ap (λ (m : StringMap MapWinner). offer (first_candidate tx key ops) (m key))
          (conflict_state-SameViews lop (prio tx) s).all
  apply_ops-map_all canonical (Op.map mop ∷ ops) s =
      apply_ops-map_all canonical ops (apply_map_op tx canonical mop s)
      ∙ ap (offer (first_candidate tx key ops))
          (lww_update-slot s.map_all (map_key mop) (map_candidate tx mop))
      ∙ offer_step mop ops (s.map_all key)

  -- the slot of the canonical map after the operations of a confirmed node
  apply_ops-map_canonical :
      (ops : List Op) (s : StateCaches)
      → (apply_ops tx true ops s).map_canonical key
        ≡ offer (first_candidate tx key ops) (s.map_canonical key)
  unfolding apply_ops apply_op apply_map_op apply_list_op first_candidate offer
  apply_ops-map_canonical [] s = refl
  apply_ops-map_canonical (Op.text t ∷ ops) s = apply_ops-map_canonical ops s
  apply_ops-map_canonical (Op.list lop ∷ ops) s =
      apply_ops-map_canonical ops (apply_list_op tx lop s)
      ∙ ap (λ (m : StringMap MapWinner). offer (first_candidate tx key ops) (m key))
          (conflict_state-SameViews lop (prio tx) s).canonical
  apply_ops-map_canonical (Op.map mop ∷ ops) s =
      apply_ops-map_canonical ops (apply_map_op tx true mop s)
      ∙ ap (offer (first_candidate tx key ops))
          (lww_update-slot s.map_canonical (map_key mop) (map_candidate tx mop))
      ∙ offer_step mop ops (s.map_canonical key)

-- an unconfirmed node leaves the canonical map alone
apply_ops-map_canonical_local :
    (tx : Transaction) (ops : List Op) (s : StateCaches)
    → (apply_ops tx false ops s).map_canonical ≡ s.map_canonical
unfolding apply_ops apply_op apply_map_op apply_list_op
apply_ops-map_canonical_local tx [] s = refl
apply_ops-map_canonical_local tx (Op.text t ∷ ops) s = apply_ops-map_canonical_local tx ops s
apply_ops-map_canonical_local tx (Op.map mop ∷ ops) s =
    apply_ops-map_canonical_local tx ops (apply_map_op tx false mop s)
apply_ops-map_canonical_local tx (Op.list lop ∷ ops) s =
    apply_ops-map_canonical_local tx ops (apply_list_op tx lop s)
    ∙ (conflict_state-SameViews lop (prio tx) s).canonical

module _ (node : SyncNode) (s : StateCaches) where
  -- a node acts on the slot of each key in the speculative map
  pub update-map_all :
      (canonical : Bool) (key : Bytes)
      → (update_state_caches node canonical s).map_all key ≡ node_slot key node (s.map_all key)
  unfolding update_state_caches node_slot
  update-map_all canonical key = elim (Bool-cases (eqp (prio node.transaction) zero_prio)) [
    | inl skip ↦ rw (skip, update_state_caches) refl
    | inr go ↦
        rw (go, update_state_caches)
          (apply_ops-map_all node.transaction key canonical node.transaction.ops s)
  ]

  -- a confirmed node acts on the canonical map in the same way
  pub update-map_canonical :
      (key : Bytes)
      → (update_state_caches node true s).map_canonical key
        ≡ node_slot key node (s.map_canonical key)
  unfolding update_state_caches node_slot
  update-map_canonical key = elim (Bool-cases (eqp (prio node.transaction) zero_prio)) [
    | inl skip ↦ rw (skip, update_state_caches) refl
    | inr go ↦
        rw (go, update_state_caches)
          (apply_ops-map_canonical node.transaction key node.transaction.ops s)
  ]

  -- an unconfirmed one does not
  pub update-map_canonical_local :
      (update_state_caches node false s).map_canonical ≡ s.map_canonical
  unfolding update_state_caches
  update-map_canonical_local = elim (Bool-cases (eqp (prio node.transaction) zero_prio)) [
    | inl skip ↦ rw (skip, update_state_caches) refl
    | inr go ↦
        rw (go, update_state_caches)
          (apply_ops-map_canonical_local node.transaction node.transaction.ops s)
  ]
