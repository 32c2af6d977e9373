-- ===== src/Text/Nodes.antt =====
-- core/crdt/src/text.rs: what a node does to the text of a key. Range operations find their place
-- among the visible characters; `resolve_text_seq` replays the nodes in the order of their clocks.
use Prim.Native.Nat.{min}
use nodalmerge.Base.{
  ℕ, zero, suc, ◌+◌, ◌-◌, Bool, not, ◌||◌, ◌&&◌, Bytes, List, [], ◌∷◌, map, Option, none, some,
  ◌==◌, ltb, leb, if◌then◌else◌, bytes_eq, retain,
}
use nodalmerge.Base.Prio.{gtp, eqp}
use nodalmerge.Base.Folds.{run}
use nodalmerge.Op.{OpId, Op, TextOp, TextRangeAnchor, Transaction, prio}
use nodalmerge.Node.{SyncNode}
use nodalmerge.Graph.{saturating_add}
use nodalmerge.Text.{
  Item, TextProjection, empty_projection, has_item, loc_of_id, visible_prefix_at, is_deleted,
  delete_known, apply_insert, apply_delete,
}

-- the visible item at an offset
unfoldable pub visible_item_at : ℕ → List Item → Option Item
visible_item_at offset [] = none
visible_item_at zero (x ∷ items) = if x.deleted then visible_item_at zero items else some x
visible_item_at (suc offset) (x ∷ items) =
    if x.deleted then visible_item_at (suc offset) items else visible_item_at offset items

unfoldable pub id_at_visible_offset : ℕ → TextProjection → Option OpId
id_at_visible_offset offset s = elim (visible_item_at offset s.items) [
  | some x ↦ some x.id
  | none ↦ none
]

unfoldable pub visible_offset_of_id : OpId → TextProjection → Option ℕ
visible_offset_of_id id s =
    if not (has_item id s.items) || is_deleted id s.items
    then none
    else some (visible_prefix_at (loc_of_id id s.items) s.items)

unfoldable pub resolve_anchor_index : TextRangeAnchor → TextProjection → ℕ
resolve_anchor_index TextRangeAnchor.start s = 0
resolve_anchor_index TextRangeAnchor.end s = s.visible_chars_total
resolve_anchor_index (TextRangeAnchor.offset i) s = min i s.visible_chars_total
resolve_anchor_index (TextRangeAnchor.after id) s = elim (visible_offset_of_id id s) [
  | some offset ↦ offset + 1
  | none ↦ s.visible_chars_total
]

unfoldable pub resolve_anchor_after_visible : TextRangeAnchor → TextProjection → Option OpId
resolve_anchor_after_visible anchor s =
    let idx = resolve_anchor_index anchor s in
    if idx == 0 then none else id_at_visible_offset (idx - 1) s

-- the anchor that is stored for an offset
unfoldable pub anchor_for_offset : ℕ → TextProjection → TextRangeAnchor
anchor_for_offset offset s =
    if offset == 0
    then TextRangeAnchor.start
    else if leb s.visible_chars_total offset
    then TextRangeAnchor.end
    else elim (id_at_visible_offset (offset - 1) s) [
      | some id ↦ TextRangeAnchor.after id
      | none ↦ TextRangeAnchor.start
    ]

-- the characters of a range, one behind the other
unfoldable pub insert_chars : ℕ → ℕ → ℕ → Option OpId → List ℕ → TextProjection → TextProjection
insert_chars base_lamport author offset insert_after [] s = s
insert_chars base_lamport author offset insert_after (ch ∷ chars) s =
    let id : OpId = record { lamport = saturating_add base_lamport offset; author = author } in
    insert_chars base_lamport author (suc offset) (some id) chars
      (apply_insert id insert_after ch s)

unfoldable pub apply_range_insert :
    ℕ → ℕ → TextRangeAnchor → List ℕ → TextProjection → TextProjection
apply_range_insert base_lamport author anchor chars s =
    insert_chars base_lamport author 0 (resolve_anchor_after_visible anchor s) chars s

-- the item at one offset is deleted, again and again
unfoldable pub delete_at : ℕ → ℕ → TextProjection → TextProjection
delete_at zero start s = s
delete_at (suc count) start s = elim (visible_item_at start s.items) [
  | none ↦ s
  | some x ↦ delete_at count start (delete_known x.id s)
]

unfoldable pub apply_range_delete : TextRangeAnchor → ℕ → TextProjection → TextProjection
apply_range_delete anchor len_chars s =
    let start = resolve_anchor_index anchor s in
    delete_at (min len_chars (s.visible_chars_total - start)) start s

unfoldable pub apply_text : Transaction → Bytes → TextOp → TextProjection → TextProjection
apply_text tx key (TextOp.insert op_key left ch) s =
    if bytes_eq op_key key then apply_insert (prio tx) left ch s else s
apply_text tx key (TextOp.delete op_key target) s =
    if bytes_eq op_key key then apply_delete target s else s
apply_text tx key (TextOp.insert_range op_key anchor chars) s =
    if bytes_eq op_key key then apply_range_insert tx.lamport tx.author anchor chars s else s
apply_text tx key (TextOp.delete_range op_key anchor len_chars) s =
    if bytes_eq op_key key then apply_range_delete anchor len_chars s else s

unfoldable pub apply_ops : Transaction → Bytes → List Op → TextProjection → TextProjection
apply_ops tx key [] s = s
apply_ops tx key (Op.text t ∷ ops) s = apply_ops tx key ops (apply_text tx key t s)
apply_ops tx key (Op.map m ∷ ops) s = apply_ops tx key ops s
apply_ops tx key (Op.list l ∷ ops) s = apply_ops tx key ops s

unfoldable pub apply_node : Bytes → SyncNode → TextProjection → TextProjection
apply_node key node s = apply_ops node.transaction key node.transaction.ops s

unfoldable pub apply_nodes : Bytes → List SyncNode → TextProjection → TextProjection
apply_nodes key [] s = s
apply_nodes key (node ∷ nodes) s = apply_nodes key nodes (apply_node key node s)

unfoldable pub from_nodes : List SyncNode → Bytes → TextProjection
from_nodes nodes key = apply_nodes key nodes empty_projection

-- `build_visible_seq_pairs`
unfoldable pub visible_pairs : List Item → List (OpId × ℕ)
visible_pairs [] = []
visible_pairs (x ∷ items) =
    if x.deleted then visible_pairs items else (x.id, x.ch) ∷ visible_pairs items

-- the sort by `(lamport, author, id)`; nodes with one key come in any order
unfoldable pub is_later : SyncNode → SyncNode → Bool
is_later a b =
    gtp (prio a.transaction) (prio b.transaction)
    || eqp (prio a.transaction) (prio b.transaction) && ltb b.id a.id

unfoldable pub insert_node_sorted : SyncNode → List SyncNode → List SyncNode
insert_node_sorted a [] = a ∷ []
insert_node_sorted a (b ∷ nodes) =
    if is_later a b then b ∷ insert_node_sorted a nodes else a ∷ b ∷ nodes

unfoldable pub sort_nodes : List SyncNode → List SyncNode
unfolding run insert_node_sorted
sort_nodes nodes = run insert_node_sorted nodes []

unfoldable pub resolve_text_seq : List SyncNode → Bytes → List (OpId × ℕ)
resolve_text_seq nodes key = visible_pairs (from_nodes (sort_nodes nodes) key).items

unfoldable pub resolve_text : List SyncNode → Bytes → List ℕ
resolve_text nodes key = map (λ p. p.1) (resolve_text_seq nodes key)

unfoldable pub resolve_text_seq_upto_lamport : List SyncNode → Bytes → ℕ → List (OpId × ℕ)
resolve_text_seq_upto_lamport nodes key max_lamport =
    resolve_text_seq (retain (λ n. leb n.transaction.lamport max_lamport) nodes) key

unfoldable pub resolve_text_upto_lamport : List SyncNode → Bytes → ℕ → List ℕ
resolve_text_upto_lamport nodes key max_lamport =
    map (λ p. p.1) (resolve_text_seq_upto_lamport nodes key max_lamport)
