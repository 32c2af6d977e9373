-- ===== src/Text/Keeping.antt =====
-- What the three updates of a projection keep, the nodes of core/crdt/src/text.rs keep.
use nodalmerge.Base.{
  ℕ, zero, suc, Bytes, List, [], ◌∷◌, Option, none, some, inl, inr, Bool-cases, bytes_eq,
}
use nodalmerge.Op.{OpId, Op, TextOp, Transaction, prio}
use nodalmerge.Node.{SyncNode}
use nodalmerge.Text.{TextProjection, delete_known, apply_insert, apply_delete}
use nodalmerge.Text.Nodes.{
  visible_item_at, insert_chars, apply_range_insert, delete_at, apply_range_delete, apply_text,
  apply_ops, apply_node, apply_nodes,
}

module _ (Keeps : TextProjection → Type 0)
    (insert : (id : OpId) (after : Option OpId) (ch : ℕ) (s : TextProjection)
      → Keeps s
      → Keeps (apply_insert id after ch s))
    (known : (id : OpId) (s : TextProjection) → Keeps s → Keeps (delete_known id s))
    (delete : (target : OpId) (s : TextProjection) → Keeps s → Keeps (apply_delete target s)) where
  insert_chars-Keeps :
      (lamport author offset : ℕ) (after : Option OpId) (chars : List ℕ) (s : TextProjection)
      → Keeps s
      → Keeps (insert_chars lamport author offset after chars s)
  unfolding insert_chars
  insert_chars-Keeps lamport author offset after [] s h = h
  insert_chars-Keeps lamport author offset after (ch ∷ chars) s h =
      insert_chars-Keeps lamport author (suc offset) _ chars _ (insert _ after ch s h)

  delete_at-Keeps :
      (count start : ℕ) (s : TextProjection) → Keeps s → Keeps (delete_at count start s)
  unfolding delete_at
  delete_at-Keeps zero start s h = h
  delete_at-Keeps (suc count) start s h =
      elim (visible_item_at start s.items)
        as (λ o.
          Keeps (elim o [ none ↦ s | some x ↦ delete_at count start (delete_known x.id s) ])) [
            | none ↦ h
            | some x ↦ delete_at-Keeps count start _ (known x.id s h)
          ]

  apply_text-Keeps :
      (tx : Transaction) (key : Bytes) (op : TextOp) (s : TextProjection)
      → Keeps s
      → Keeps (apply_text tx key op s)
  unfolding apply_text apply_range_insert apply_range_delete
  apply_text-Keeps tx key (TextOp.insert op_key left ch) s h =
      elim (Bool-cases (bytes_eq op_key key)) [
        | inl own ↦ rw own (insert (prio tx) left ch s h)
        | inr other ↦ rw other h
      ]
  apply_text-Keeps tx key (TextOp.delete op_key target) s h =
      elim (Bool-cases (bytes_eq op_key key)) [
        | inl own ↦ rw own (delete target s h)
        | inr other ↦ rw other h
      ]
  apply_text-Keeps tx key (TextOp.insert_range op_key anchor chars) s h =
      elim (Bool-cases (bytes_eq op_key key)) [
        | inl own ↦ rw own (insert_chars-Keeps tx.lamport tx.author 0 _ chars s h)
        | inr other ↦ rw other h
      ]
  apply_text-Keeps tx key (TextOp.delete_range op_key anchor len_chars) s h =
      elim (Bool-cases (bytes_eq op_key key)) [
        | inl own ↦ rw own (delete_at-Keeps _ _ s h)
        | inr other ↦ rw other h
      ]

  apply_ops-Keeps :
      (tx : Transaction) (key : Bytes) (ops : List Op) (s : TextProjection)
      → Keeps s
      → Keeps (apply_ops tx key ops s)
  unfolding apply_ops
  apply_ops-Keeps tx key [] s h = h
  apply_ops-Keeps tx key (Op.text t ∷ ops) s h =
      apply_ops-Keeps tx key ops _ (apply_text-Keeps tx key t s h)
  apply_ops-Keeps tx key (Op.map m ∷ ops) s h = apply_ops-Keeps tx key ops s h
  apply_ops-Keeps tx key (Op.list l ∷ ops) s h = apply_ops-Keeps tx key ops s h

  apply_node-Keeps :
      (key : Bytes) (node : SyncNode) (s : TextProjection) → Keeps s → Keeps (apply_node key node s)
  unfolding apply_node
  apply_node-Keeps key node s h = apply_ops-Keeps node.transaction key node.transaction.ops s h

  pub apply_nodes-Keeps :
      (key : Bytes) (nodes : List SyncNode) (s : TextProjection)
      → Keeps s
      → Keeps (apply_nodes key nodes s)
  unfolding apply_nodes
  apply_nodes-Keeps key [] s h = h
  apply_nodes-Keeps key (node ∷ nodes) s h =
      apply_nodes-Keeps key nodes _ (apply_node-Keeps key node s h)
