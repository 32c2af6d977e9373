-- ===== src/ListCrdt/Converge.antt =====
-- `resolve_list_seq` of core/crdt/src/list.rs does not depend on the order of the nodes.
use mathlib.Core.List.{Permᴰ}
use nodalmerge.Base.{
  ℕ, ◌≡◌, ◌≢◌, refl, sym, ap, ◌∙◌, ◌&&◌, Bytes, List, [], ◌∷◌, Option, some, arith, inl, inr, ◌==◌,
  if◌then◌else◌, or_else, All, Bool-cases, bytes_eq,
}
use nodalmerge.Base.Folds.{run, run-run, run-perm}
use nodalmerge.Base.Prio.{Prio, gtp, eqp, eqp→eq, eqp-ne}
use nodalmerge.Base.Sort.{sort-perm}
use nodalmerge.Op.{Op, ListOp, prio, list_key}
use nodalmerge.Node.{SyncNode}
use nodalmerge.ListCrdt.{
  ItemState, fresh_item, entry_cmp, item_id, item_step, place, ItemMap, update_item,
  replay_list_ops, replay_list_nodes, resolve_list_seq,
}
use nodalmerge.ListCrdt.Order.{entry_cmp-IsTotal}
use nodalmerge.ListCrdt.Perms.{same_items-perm, visible_entries-perm}
use nodalmerge.ListCrdt.Items.{
  lookup_item, IsItemMap, update_item-IsItemMap, lookup_item-update_item,
}

-- operations of different priority may come in either order
item_step-item_step :
    (a b : ListOp) (p q : Prio) (s : ItemState)
    → p ≢ q
    → item_step a p (item_step b q s) ≡ item_step b q (item_step a p s)
unfolding item_step place gtp
item_step-item_step (ListOp.insert k i x) (ListOp.insert l j y) p q s h = ground arith
item_step-item_step (ListOp.insert k i x) (ListOp.delete l j) p q s h = ground arith
item_step-item_step (ListOp.insert k i x) (ListOp.move l j y) p q s h = ground arith
item_step-item_step (ListOp.delete k i) b p q s h = ground arith
item_step-item_step (ListOp.move k i x) (ListOp.insert l j y) p q s h = ground arith
item_step-item_step (ListOp.move k i x) (ListOp.delete l j) p q s h = ground arith
item_step-item_step (ListOp.move k i x) (ListOp.move l j y) p q s h = ground arith

module _ (key : Bytes) (j : ℕ) where
  -- what one operation does to the item `j` of the list
  item_op : Prio → Op → Option ItemState → Option ItemState
  item_op at (Op.map m) slot = slot
  item_op at (Op.text t) slot = slot
  item_op at (Op.list lop) slot =
      if bytes_eq (list_key lop) key && item_id lop == j
      then some (item_step lop at (or_else slot fresh_item))
      else slot

  item_op-item_op :
      (p q : Prio) (a b : Op) (slot : Option ItemState)
      → p ≢ q
      → item_op p a (item_op q b slot) ≡ item_op q b (item_op p a slot)
  unfolding item_op
  item_op-item_op p q (Op.map m) b slot h = refl
  item_op-item_op p q (Op.text t) b slot h = refl
  item_op-item_op p q (Op.list l) (Op.map m) slot h = refl
  item_op-item_op p q (Op.list l) (Op.text t) slot h = refl
  item_op-item_op p q (Op.list l) (Op.list m) slot h =
      ground (arith, item_step-item_step l m p q (or_else slot fresh_item))

  item_node : SyncNode → Option ItemState → Option ItemState
  item_node n = run (item_op (prio n.transaction)) n.transaction.ops

  item_node-item_node :
      (a b : SyncNode) (slot : Option ItemState)
      → (prio a.transaction ≡ prio b.transaction → a ≡ b)
      → item_node a (item_node b slot) ≡ item_node b (item_node a slot)
  unfolding item_node
  item_node-item_node a b slot honest =
      let p : Prio = prio a.transaction in
      let q : Prio = prio b.transaction in
      elim (Bool-cases (eqp p q)) [
        | inl same ↦ let e : a ≡ b = honest (eqp→eq p q same) in rw e
        | inr differ ↦
            run-run (item_op p) (item_op q) (λ x y s. item_op-item_op p q x y s (eqp-ne p q differ))
              a.transaction.ops b.transaction.ops slot
      ]

  lookup-replay_list_ops :
      (at : Prio) (ops : List Op) (items : ItemMap)
      → lookup_item j (replay_list_ops key at ops items)
        ≡ run (item_op at) ops (lookup_item j items)
  unfolding replay_list_ops run item_op
  lookup-replay_list_ops at [] items = refl
  lookup-replay_list_ops at (Op.map m ∷ ops) items = lookup-replay_list_ops at ops items
  lookup-replay_list_ops at (Op.text t ∷ ops) items = lookup-replay_list_ops at ops items
  lookup-replay_list_ops at (Op.list lop ∷ ops) items =
      lookup-replay_list_ops at ops
        (if bytes_eq (list_key lop) key then update_item lop at items else items)
      ∙ ap (run (item_op at) ops) (ground (arith, lookup_item-update_item lop at j items))

  lookup-replay_list_nodes :
      (nodes : List SyncNode) (items : ItemMap)
      → lookup_item j (replay_list_nodes key nodes items)
        ≡ run item_node nodes (lookup_item j items)
  unfolding replay_list_nodes run item_node
  lookup-replay_list_nodes [] items = refl
  lookup-replay_list_nodes (n ∷ nodes) items =
      lookup-replay_list_nodes nodes
        (replay_list_ops key (prio n.transaction) n.transaction.ops items)
      ∙ ap (run item_node nodes)
          (lookup-replay_list_ops (prio n.transaction) n.transaction.ops items)

replay_list_ops-IsItemMap :
    (key : Bytes) (at : Prio) (ops : List Op) (items : ItemMap)
    → IsItemMap items
    → IsItemMap (replay_list_ops key at ops items)
unfolding replay_list_ops
replay_list_ops-IsItemMap key at [] items h = h
replay_list_ops-IsItemMap key at (Op.map m ∷ ops) items h =
    replay_list_ops-IsItemMap key at ops items h
replay_list_ops-IsItemMap key at (Op.text t ∷ ops) items h =
    replay_list_ops-IsItemMap key at ops items h
replay_list_ops-IsItemMap key at (Op.list lop ∷ ops) items h =
    elim (Bool-cases (bytes_eq (list_key lop) key)) [
      | inl hit ↦ rw hit (
          replay_list_ops-IsItemMap key at ops (update_item lop at items)
            (update_item-IsItemMap lop at items h))
      | inr miss ↦ rw miss (replay_list_ops-IsItemMap key at ops items h)
    ]

replay_list_nodes-IsItemMap :
    (key : Bytes) (nodes : List SyncNode) (items : ItemMap)
    → IsItemMap items
    → IsItemMap (replay_list_nodes key nodes items)
unfolding replay_list_nodes
replay_list_nodes-IsItemMap key [] items h = h
replay_list_nodes-IsItemMap key (n ∷ nodes) items h =
    replay_list_nodes-IsItemMap key nodes
      (replay_list_ops key (prio n.transaction) n.transaction.ops items)
      (replay_list_ops-IsItemMap key (prio n.transaction) n.transaction.ops items h)

module _ {ℓ} (Q : SyncNode → Type ℓ) (key : Bytes) where
  -- Every order of a set of nodes resolves to one list, if no two different nodes of the set have
  -- the same lamport clock and author.
  pub resolve_list_seq-perm :
      ((a b : SyncNode) → Q a → Q b → prio a.transaction ≡ prio b.transaction → a ≡ b)
      → {xs ys : List SyncNode} → Permᴰ xs ys
      → All Q xs
      → resolve_list_seq xs key ≡ resolve_list_seq ys key
  unfolding resolve_list_seq
  resolve_list_seq-perm honest {xs} {ys} p h =
      let same : (j : ℕ)
          → lookup_item j (replay_list_nodes key xs [])
            ≡ lookup_item j (replay_list_nodes key ys []) =
        λ j.
          lookup-replay_list_nodes key j xs []
          ∙ run-perm Q (item_node key j)
              (λ a b s qa qb. item_node-item_node key j a b s (honest a b qa qb)) p h
              (lookup_item j [])
          ∙ sym (lookup-replay_list_nodes key j ys []) in
      sort-perm entry_cmp entry_cmp-IsTotal (
        visible_entries-perm (
          same_items-perm (replay_list_nodes key xs []) (replay_list_nodes key ys [])
            (replay_list_nodes-IsItemMap key xs [] tt) (replay_list_nodes-IsItemMap key ys [] tt)
            same))
