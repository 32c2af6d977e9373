-- ===== src/Tests/Lists.antt =====
-- The list views at concrete inputs.
use mathlib.Core.List.{Permᴰ}
use nodalmerge.Base.{
  ℕ, ◌≡◌, ◌≢◌, ◌⊎◌, inl, inr, refl, sym, ap, ◌∙◌, Bytes, List, [], ◌∷◌, arith, bytes_eq, bytes_cmp,
}
use nodalmerge.Base.Prio.{gtp, eqp}
use nodalmerge.Base.Sort.{sort, insert}
use nodalmerge.Op.{Op, ListOp, prio, list_key}
use nodalmerge.Node.{SyncNode}
use nodalmerge.ListCrdt.{
  Entry, resolve_list, resolve_list_seq, replay_list_nodes, replay_list_ops, update_item, item_step,
  place, item_id, visible_entries, visible_position, entry_cmp,
}
use nodalmerge.ListCrdt.Converge.{resolve_list_seq-perm}
use nodalmerge.Caches.{empty_caches}
use nodalmerge.Caches.Replay.{admit_marked}
use nodalmerge.Caches.Lists.{admit_marked-resolve_list}

abbrev todo : Bytes
todo = b't' ∷ []

abbrev list_node : ℕ → ℕ → ℕ → List Op → SyncNode
list_node id author lamport ops = record {
  id = id;
  transaction = record { author = author; lamport = lamport; wall_ms = 0; ops = ops; parents = [] };
  signature = 0;
}

-- an item is inserted and moved, and two others share its position
abbrev inserts : SyncNode
inserts = list_node 1 7 1 (
    Op.list (ListOp.insert todo 5 (b'V' ∷ []))
    ∷ Op.list (ListOp.insert todo 4 (b'V' ∷ []))
    ∷ Op.list (ListOp.insert todo 3 (b'V' ∷ []))
    ∷ [])

abbrev edits : SyncNode
edits =
    list_node 2 9 2 (Op.list (ListOp.move todo 5 (b'A' ∷ [])) ∷ Op.list (ListOp.delete todo 3) ∷ [])

abbrev resolved : List Entry
resolved =
    record { position = b'A' ∷ []; item_id = 5 } ∷ record { position = b'V' ∷ []; item_id = 4 } ∷ []

-- the move comes before the insertion that it follows
move_first : resolve_list_seq (edits ∷ inserts ∷ []) todo ≡ resolved
unfolding resolve_list_seq replay_list_nodes replay_list_ops update_item item_step place item_id
    visible_entries visible_position entry_cmp sort insert bytes_eq bytes_cmp gtp list_key
move_first = refl

admit_marked-resolve_list_example :
    resolve_list (admit_marked (2 ∷ []) (edits ∷ inserts ∷ []) empty_caches).lists todo
    ≡ resolve_list_seq (edits ∷ inserts ∷ []) todo
admit_marked-resolve_list_example =
    admit_marked-resolve_list (2 ∷ []) (edits ∷ inserts ∷ []) todo
      (unfold eqp in (refl, (refl, tt)))

abbrev Sent : SyncNode → Type 0
Sent n = (n ≡ inserts) ⊎ (n ≡ edits)

clocks_differ : inserts.transaction.lamport ≢ edits.transaction.lamport
clocks_differ = omega arith

Sent-clock :
    (a b : SyncNode)
    → prio a.transaction ≡ prio b.transaction
    → a.transaction.lamport ≡ b.transaction.lamport
Sent-clock a b h = ap (λ r. r.lamport) h

Sent-honest : (a b : SyncNode) → Sent a → Sent b → prio a.transaction ≡ prio b.transaction → a ≡ b
Sent-honest a b (inl p) (inl q) h = p ∙ sym q
Sent-honest a b (inr p) (inr q) h = p ∙ sym q
Sent-honest a b (inl p) (inr q) h = absurd (
    clocks_differ (
      ap (λ (n : SyncNode). n.transaction.lamport) (sym p)
      ∙ Sent-clock a b h
      ∙ ap (λ (n : SyncNode). n.transaction.lamport) q))
Sent-honest a b (inr p) (inl q) h = absurd (
    clocks_differ (
      ap (λ (n : SyncNode). n.transaction.lamport) (sym q)
      ∙ sym (Sent-clock a b h)
      ∙ ap (λ (n : SyncNode). n.transaction.lamport) p))

resolve_list_seq-perm_example :
    resolve_list_seq (inserts ∷ edits ∷ []) todo ≡ resolve_list_seq (edits ∷ inserts ∷ []) todo
resolve_list_seq-perm_example =
    resolve_list_seq-perm Sent todo Sent-honest (Permᴰ.swap refl refl) (inl refl, (inr refl, tt))
