-- ===== src/Tests/Texts.antt =====
-- The text of a key and its position index at concrete inputs.
use mathlib.Core.List.{Permᴰ}
use nodalmerge.Base.{
  ℕ, ◌+◌, ◌<◌, ◌≤◌, ◌≡◌, ◌≢◌, refl, sym, ap, ◌∙◌, true, Bytes, List, [], ◌∷◌, none, some, ◌⊎◌, inl,
  inr, arith, retain, bytes_eq, min, ◌==◌, if◌then◌else◌,
}
use nodalmerge.Op.{OpId, Op, TextOp, TextRangeAnchor, prio}
use nodalmerge.Node.{SyncNode}
use nodalmerge.Base.Prio.{eqp, gtp}
use nodalmerge.Graph.{saturating_add}
use nodalmerge.Text.{
  TextProjection, empty_projection, ProjectionUpdateOp, apply_updates_coalesced, apply_insert,
  integrate, integration_loc, scan_from, scan_after, insert_at, has_item, is_orphan,
  drain_orphans_of, drain_loop, integrate_children, push_children, visible_prefix_at, set_flag,
  delete_known, is_deleted, mark_deleted, remove_at, loc_of_id,
}
use nodalmerge.Text.Sequence.{put_item, put_scan, put_after, has_anchor}
use nodalmerge.Text.Index.{
  CountedPositionIndex, empty_index, u32_max, to_u32, set_at, update_weight, rebuild_from_weights,
  rebuild_fenwick, add_weights, add_u32, select_offset,
}
use nodalmerge.Text.Index.Sums.{IsFenwick, sum}
use nodalmerge.Text.Index.Rebuild.{rebuild_from_weights-IsFenwick}
use nodalmerge.Text.Index.Update.{update_weight-IsFenwick}
use nodalmerge.Text.Index.Select.{select_offset-sum}
use nodalmerge.Text.Shown.{IsShown, shown}
use nodalmerge.Text.Updates.{step, is_ready}
use nodalmerge.Text.Converge.{is_causal, doc, apply_updates_coalesced-perm}
use nodalmerge.Text.Nodes.{
  visible_item_at, id_at_visible_offset, resolve_anchor_index, resolve_anchor_after_visible,
  anchor_for_offset, insert_chars, apply_range_insert, delete_at, apply_range_delete, apply_text,
  apply_ops, apply_node, apply_nodes, from_nodes, resolve_text_seq,
}
use nodalmerge.Text.Kept.{IsText, from_nodes-IsText}
use nodalmerge.Text.Ranges.{cut, apply_range_delete-cut, resolve_anchor_index-anchor_for_offset}
use nodalmerge.Text.Drains.{Drains, drain_orphans_of-Drains}
use nodalmerge.Text.Settled.{IsSettled, from_nodes-IsSettled}
use nodalmerge.Text.Orders.{resolve_text_seq-perm}

abbrev at : ℕ → OpId
at lamport = record { lamport = lamport; author = 7 }

abbrev insert_a : ProjectionUpdateOp
insert_a = ProjectionUpdateOp.insert (at 1) none b'a'

abbrev insert_b : ProjectionUpdateOp
insert_b = ProjectionUpdateOp.insert (at 2) (some (at 1)) b'b'

abbrev delete_b : ProjectionUpdateOp
delete_b = ProjectionUpdateOp.delete (at 2)

empty-IsShown : IsShown empty_projection
unfolding IsShown shown
empty-IsShown = (refl, refl, refl, refl)

delete_last : is_causal (insert_a ∷ insert_b ∷ delete_b ∷ []) (doc empty_projection) ≡ true
unfolding is_causal is_ready step put_item put_scan put_after has_anchor has_item mark_deleted
    set_flag eqp gtp doc
delete_last = refl

-- the delete may come before the insert
delete_between : is_causal (insert_a ∷ delete_b ∷ insert_b ∷ []) (doc empty_projection) ≡ true
unfolding is_causal is_ready step put_item put_scan put_after has_anchor has_item mark_deleted
    set_flag eqp gtp doc
delete_between = refl

apply_updates_coalesced-perm_example :
    ((apply_updates_coalesced (insert_a ∷ insert_b ∷ delete_b ∷ []) empty_projection).items
      ≡ (apply_updates_coalesced (insert_a ∷ delete_b ∷ insert_b ∷ []) empty_projection).items)
    × ((apply_updates_coalesced
          (insert_a ∷ insert_b ∷ delete_b ∷ [])
          empty_projection).pending_deletes
        ≡ (apply_updates_coalesced
            (insert_a ∷ delete_b ∷ insert_b ∷ [])
            empty_projection).pending_deletes)
    × ((apply_updates_coalesced
          (insert_a ∷ insert_b ∷ delete_b ∷ [])
          empty_projection).visible_string
        ≡ (apply_updates_coalesced
            (insert_a ∷ delete_b ∷ insert_b ∷ [])
            empty_projection).visible_string)
apply_updates_coalesced-perm_example =
    apply_updates_coalesced-perm (insert_a ∷ insert_b ∷ delete_b ∷ [])
      (insert_a ∷ delete_b ∷ insert_b ∷ []) empty_projection
      (Permᴰ.cons refl (Permᴰ.swap refl refl)) refl empty-IsShown delete_last delete_between

abbrev doc_key : Bytes
doc_key = b'd' ∷ []

abbrev text_node : ℕ → ℕ → List Op → SyncNode
text_node id lamport ops = record {
  id = id;
  transaction = record { author = 7; lamport = lamport; wall_ms = 0; ops = ops; parents = [] };
  signature = 0;
}

-- `abcd`, in which `b` is deleted
abbrev writes : SyncNode
writes = text_node 1 1 (
    Op.text (TextOp.insert_range doc_key TextRangeAnchor.start (b'a' ∷ b'b' ∷ b'c' ∷ b'd' ∷ []))
    ∷ [])

abbrev deletes : SyncNode
deletes = text_node 2 9 (Op.text (TextOp.delete_range doc_key (TextRangeAnchor.offset 1) 1) ∷ [])

abbrev text : TextProjection
text = from_nodes (writes ∷ deletes ∷ []) doc_key

text_string : text.visible_string ≡ b'a' ∷ b'c' ∷ b'd' ∷ []
unfolding from_nodes apply_nodes apply_node apply_ops apply_text apply_range_insert insert_chars
    apply_range_delete delete_at visible_item_at id_at_visible_offset resolve_anchor_index
    resolve_anchor_after_visible saturating_add bytes_eq apply_insert integrate integration_loc
    scan_from scan_after insert_at has_item is_orphan drain_orphans_of drain_loop integrate_children
    push_children retain visible_prefix_at set_flag delete_known is_deleted mark_deleted remove_at
    loc_of_id eqp gtp
text_string = refl

from_nodes-IsText_example : IsText text
from_nodes-IsText_example = from_nodes-IsText (writes ∷ deletes ∷ []) doc_key

-- an insert behind `a`, which comes before `a`
abbrev replies : SyncNode
replies = text_node 3 12 (Op.text (TextOp.insert doc_key (some (at 1)) b'x') ∷ [])

from_nodes-IsSettled_example : IsSettled (from_nodes (replies ∷ writes ∷ []) doc_key)
from_nodes-IsSettled_example = from_nodes-IsSettled (replies ∷ writes ∷ []) doc_key

apply_range_delete-cut_example :
    (apply_range_delete (TextRangeAnchor.offset 1) 5 text).visible_string
    ≡ cut (resolve_anchor_index (TextRangeAnchor.offset 1) text) 5 text.visible_string
apply_range_delete-cut_example =
    apply_range_delete-cut (TextRangeAnchor.offset 1) 5 text
      (from_nodes-IsText (writes ∷ deletes ∷ []) doc_key)

resolve_anchor_index-anchor_for_offset_example :
    resolve_anchor_index (anchor_for_offset 2 text) text ≡ min 2 text.visible_chars_total
resolve_anchor_index-anchor_for_offset_example =
    resolve_anchor_index-anchor_for_offset 2 text
      (from_nodes-IsText (writes ∷ deletes ∷ []) doc_key)

abbrev Sent : SyncNode → Type 0
Sent n = (n ≡ writes) ⊎ (n ≡ deletes)

ids_differ : writes.id ≢ deletes.id
ids_differ = omega arith

Sent-honest :
    (a b : SyncNode)
    → Sent a
    → Sent b
    → prio a.transaction ≡ prio b.transaction
    → a.id ≡ b.id
    → a ≡ b
Sent-honest a b (inl p) (inl q) h e = p ∙ sym q
Sent-honest a b (inr p) (inr q) h e = p ∙ sym q
Sent-honest a b (inl p) (inr q) h e =
    absurd (ids_differ (ap (λ (n : SyncNode). n.id) (sym p) ∙ e ∙ ap (λ (n : SyncNode). n.id) q))
Sent-honest a b (inr p) (inl q) h e =
    absurd
      (ids_differ (ap (λ (n : SyncNode). n.id) (sym q) ∙ sym e ∙ ap (λ (n : SyncNode). n.id) p))

resolve_text_seq-perm_example :
    resolve_text_seq (writes ∷ deletes ∷ []) doc_key
    ≡ resolve_text_seq (deletes ∷ writes ∷ []) doc_key
resolve_text_seq-perm_example =
    resolve_text_seq-perm Sent doc_key Sent-honest (Permᴰ.swap refl refl) (inl refl, (inr refl, tt))

-- chunks of 3, 0 and 2 visible characters
abbrev chunk_weights : ℕ → ℕ
chunk_weights i = if i == 0 then 3 else if i == 2 then 2 else 0

abbrev chunk_index : CountedPositionIndex
chunk_index = rebuild_from_weights 3 chunk_weights empty_index

chunk_index-IsFenwick : IsFenwick chunk_index
unfolding sum to_u32
chunk_index-IsFenwick =
    (rebuild_from_weights-IsFenwick 3 chunk_weights empty_index (omega arith) (omega arith)).0

select_offset-sum_example :
    ((sum chunk_index.weights chunk_index.count ≤ 4) × (select_offset chunk_index 4 ≡ none))
    ⊎ ((entry : ℕ) × (rest : ℕ) × (select_offset chunk_index 4 ≡ some (entry, rest))
        × (entry < chunk_index.count)
        × (sum chunk_index.weights entry + rest ≡ 4)
        × (rest < chunk_index.weights entry))
select_offset-sum_example = select_offset-sum chunk_index 4 chunk_index-IsFenwick

chunk_room :
    (1 < chunk_index.count)
    × (sum (set_at 1 (to_u32 6) chunk_index.weights) chunk_index.count ≤ u32_max)
unfolding rebuild_from_weights rebuild_fenwick add_weights add_u32 sum set_at to_u32
chunk_room = (omega arith, omega arith)

update_weight-IsFenwick_example :
    IsFenwick (update_weight 1 6 chunk_index)
    × ((j : ℕ)
        → (update_weight 1 6 chunk_index).weights j
          ≡ (if j == 1 then to_u32 6 else chunk_index.weights j))
update_weight-IsFenwick_example =
    update_weight-IsFenwick chunk_index 1 6 chunk_index-IsFenwick chunk_room.0 chunk_room.1

-- `b` waits for `a`
abbrev waiting : TextProjection
waiting = apply_updates_coalesced (insert_b ∷ []) empty_projection

drain_orphans_of-Drains_example : Drains (at 1 ∷ []) waiting (drain_orphans_of (at 1) waiting)
drain_orphans_of-Drains_example = drain_orphans_of-Drains (at 1) waiting

-- the second insert of a transaction has the id of the first
abbrev twice : SyncNode
twice =
    text_node 3 1
      (Op.text (TextOp.insert doc_key none b'x') ∷ Op.text (TextOp.insert doc_key none b'y') ∷ [])

second_insert_dropped : (from_nodes (twice ∷ []) doc_key).visible_string ≡ b'x' ∷ []
unfolding from_nodes apply_nodes apply_node apply_ops apply_text bytes_eq apply_insert integrate
    integration_loc scan_from insert_at has_item is_orphan drain_orphans_of drain_loop
    integrate_children push_children retain visible_prefix_at set_flag eqp gtp
second_insert_dropped = refl

-- an author that continues at the next clock after a range of four has the id of its second character
abbrev continues : SyncNode
continues = text_node 4 2 (Op.text (TextOp.insert doc_key none b'x') ∷ [])

continued_insert_dropped :
    (from_nodes (writes ∷ continues ∷ []) doc_key).visible_string ≡ b'a' ∷ b'b' ∷ b'c' ∷ b'd' ∷ []
unfolding from_nodes apply_nodes apply_node apply_ops apply_text apply_range_insert insert_chars
    id_at_visible_offset resolve_anchor_index resolve_anchor_after_visible saturating_add bytes_eq
    apply_insert integrate integration_loc scan_from scan_after insert_at has_item is_orphan
    drain_orphans_of drain_loop integrate_children push_children retain visible_prefix_at set_flag
    eqp gtp
continued_insert_dropped = refl
