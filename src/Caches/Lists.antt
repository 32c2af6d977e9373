-- ===== src/Caches/Lists.antt =====
-- The lists that the caches of core/crdt/src/graph.rs show, against the replay of
-- core/crdt/src/list.rs.
use nodalmerge.Base.{
  ℕ, ◌≡◌, sym, subst, Bool, false, not, Bytes, List, [], ◌∷◌, inl, inr, or_else, All, Bool-cases,
  bytes_eq, bytes_eq→eq, contains, StringMap, if◌then◌else◌,
}
use nodalmerge.Base.Folds.{run}
use nodalmerge.Base.Prio.{Prio, eqp, zero_prio}
use nodalmerge.Op.{Op, ListOp, Transaction, prio, list_key}
use nodalmerge.Node.{SyncNode}
use nodalmerge.ListCrdt.{
  ListCacheState, empty_list, update_list_cache, resolve_list, ItemMap, update_item,
  replay_list_ops, replay_list_nodes, resolve_list_seq,
}
use nodalmerge.ListCrdt.Items.{sorted_entries}
use nodalmerge.ListCrdt.Cached.{Agrees, empty-Agrees, update-Agrees}
use nodalmerge.Caches.{
  StateCaches, empty_caches, apply_map_op, apply_list_op, apply_op, apply_ops, update_state_caches,
}
use nodalmerge.Caches.Slots.{conflict_state-SameViews}
use nodalmerge.Caches.Replay.{admit_marked}

-- the cached list of a key, empty if there is none
abbrev list_at : Bytes → StringMap ListCacheState → ListCacheState
list_at key lists = or_else (lists key) empty_list

module _ (key : Bytes) where
  update_list_cache-Agrees :
      (lop : ListOp) (at : Prio) (lists : StringMap ListCacheState) (items : ItemMap)
      → Agrees (list_at key lists) items
      → Agrees
          (list_at key (update_list_cache lists lop at))
          (if bytes_eq (list_key lop) key then update_item lop at items else items)
  unfolding update_list_cache
  update_list_cache-Agrees lop at lists items a = elim (Bool-cases (bytes_eq (list_key lop) key)) [
    | inl hit ↦ rw hit (
        update-Agrees lop at (list_at (list_key lop) lists) items (
          subst (λ k. Agrees (list_at k lists) items) (sym (bytes_eq→eq (list_key lop) key hit)) a))
    | inr miss ↦ rw miss a
  ]

  apply_list_op-Agrees :
      (tx : Transaction) (lop : ListOp) (s : StateCaches) (items : ItemMap)
      → Agrees (list_at key s.lists) items
      → Agrees
          (list_at key (apply_list_op tx lop s).lists)
          (if bytes_eq (list_key lop) key then update_item lop (prio tx) items else items)
  unfolding apply_list_op
  apply_list_op-Agrees tx lop s items a =
      rw (conflict_state-SameViews lop (prio tx) s).same_lists
        (update_list_cache-Agrees lop (prio tx) s.lists items a)

  apply_ops-Agrees :
      (tx : Transaction) (canonical : Bool) (ops : List Op) (s : StateCaches) (items : ItemMap)
      → Agrees (list_at key s.lists) items
      → Agrees
          (list_at key (apply_ops tx canonical ops s).lists)
          (replay_list_ops key (prio tx) ops items)
  unfolding apply_ops apply_op replay_list_ops
  apply_ops-Agrees tx canonical [] s items a = a
  apply_ops-Agrees tx canonical (Op.text t ∷ ops) s items a =
      apply_ops-Agrees tx canonical ops s items a
  apply_ops-Agrees tx canonical (Op.map mop ∷ ops) s items a =
      unfold apply_map_op in
      apply_ops-Agrees tx canonical ops (apply_map_op tx canonical mop s) items a
  apply_ops-Agrees tx canonical (Op.list lop ∷ ops) s items a =
      apply_ops-Agrees tx canonical ops (apply_list_op tx lop s)
        (if bytes_eq (list_key lop) key then update_item lop (prio tx) items else items)
        (apply_list_op-Agrees tx lop s items a)

  admit_marked-Agrees :
      (local_ids : List ℕ) (nodes : List SyncNode) (s : StateCaches) (items : ItemMap)
      → All (λ (n : SyncNode). eqp (prio n.transaction) zero_prio ≡ false) nodes
      → Agrees (list_at key s.lists) items
      → Agrees
          (list_at key (admit_marked local_ids nodes s).lists)
          (replay_list_nodes key nodes items)
  unfolding admit_marked run replay_list_nodes
  admit_marked-Agrees local_ids [] s items live a = a
  admit_marked-Agrees local_ids (n ∷ nodes) s items live a =
      admit_marked-Agrees local_ids nodes (update_state_caches n (not (contains local_ids n.id)) s)
        (replay_list_ops key (prio n.transaction) n.transaction.ops items) live.1
        (unfold update_state_caches in
          rw (live.0, update_state_caches)
            (apply_ops-Agrees n.transaction (not (contains local_ids n.id)) n.transaction.ops s
              items a))

-- The list that the caches show for a key is the one that a full replay of the nodes gives, if no
-- node has both a zero clock and a zero author.
pub admit_marked-resolve_list :
    (local_ids : List ℕ) (nodes : List SyncNode) (key : Bytes)
    → All (λ (n : SyncNode). eqp (prio n.transaction) zero_prio ≡ false) nodes
    → resolve_list (admit_marked local_ids nodes empty_caches).lists key
      ≡ resolve_list_seq nodes key
unfolding resolve_list resolve_list_seq sorted_entries
admit_marked-resolve_list local_ids nodes key live =
    (admit_marked-Agrees key local_ids nodes empty_caches [] live empty-Agrees).shown
