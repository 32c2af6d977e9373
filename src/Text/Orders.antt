-- ===== src/Text/Orders.antt =====
-- `resolve_text_seq` of core/crdt/src/text.rs does not depend on the order in which it is given the
-- nodes.
use mathlib.Core.List.{Permᴰ}
use nodalmerge.Base.{◌≡◌, ap, true, false, Bytes, List, [], ◌∷◌, arith, All}
use nodalmerge.Base.Prio.{gtp, eqp, gtp_asym, gtp_total, gtp_irrefl, eqp→eq, eqp_refl, eqp_comm}
use nodalmerge.Base.Folds.{run-perm}
use nodalmerge.Op.{prio}
use nodalmerge.Node.{SyncNode}
use nodalmerge.Text.Nodes.{
  is_later, insert_node_sorted, sort_nodes, visible_pairs, from_nodes, resolve_text_seq,
}

is_later_asym : (a b : SyncNode) → is_later a b ≡ true → is_later b a ≡ false
unfolding is_later
is_later_asym a b h = ground (
  arith,
  gtp_asym (prio a.transaction) (prio b.transaction),
  eqp_comm (prio a.transaction) (prio b.transaction),
  eqp→eq (prio a.transaction) (prio b.transaction),
  gtp_irrefl (prio a.transaction),
)

is_later_trans :
    (a b c : SyncNode) → is_later a b ≡ true → is_later b c ≡ true → is_later a c ≡ true
unfolding is_later gtp eqp
is_later_trans a b c h k = ground arith

is_later_total :
    (a b : SyncNode)
    → is_later a b ≡ false
    → is_later b a ≡ false
    → (prio a.transaction ≡ prio b.transaction) × (a.id ≡ b.id)
unfolding is_later
is_later_total a b h k =
    let same = gtp_total (prio a.transaction) (prio b.transaction) (ground arith) (ground arith) in
    (
      same,
      ground (
        arith,
        ap (λ p. eqp p (prio b.transaction)) same,
        eqp_refl (prio b.transaction),
        eqp_comm (prio a.transaction) (prio b.transaction),
      ),
    )

insert_node_sorted-insert_node_sorted :
    (a b : SyncNode) (nodes : List SyncNode)
    → (prio a.transaction ≡ prio b.transaction → a.id ≡ b.id → a ≡ b)
    → insert_node_sorted a (insert_node_sorted b nodes)
      ≡ insert_node_sorted b (insert_node_sorted a nodes)
unfolding insert_node_sorted
insert_node_sorted-insert_node_sorted a b [] honest =
    ground (arith, is_later_asym a b, is_later_asym b a, swap)
  where
    swap : is_later a b ≡ false → is_later b a ≡ false → a ≡ b
    swap h k = let same = is_later_total a b h k in honest same.0 same.1
insert_node_sorted-insert_node_sorted a b (x ∷ nodes) honest = ground (
  arith,
  insert_node_sorted-insert_node_sorted a b nodes honest,
  is_later_asym a b,
  is_later_asym b a,
  swap,
  is_later_trans a x b,
  is_later_trans b x a,
  is_later_trans a b x,
  is_later_trans b a x,
)
  where
    swap : is_later a b ≡ false → is_later b a ≡ false → a ≡ b
    swap h k = let same = is_later_total a b h k in honest same.0 same.1

module _ {ℓ} (Q : SyncNode → Type ℓ) (key : Bytes) where
  -- Every order of a set of nodes resolves to one text, with the same ids, if no two different nodes
  -- of the set have the same lamport clock, author and id.
  pub resolve_text_seq-perm :
      ((a b : SyncNode) → Q a → Q b → prio a.transaction ≡ prio b.transaction → a.id ≡ b.id → a ≡ b)
      → {xs ys : List SyncNode} → Permᴰ xs ys
      → All Q xs
      → resolve_text_seq xs key ≡ resolve_text_seq ys key
  unfolding resolve_text_seq sort_nodes
  resolve_text_seq-perm honest {xs} {ys} p h =
      ap (λ nodes. visible_pairs (from_nodes nodes key).items)
        (run-perm Q insert_node_sorted
          (λ a b s qa qb. insert_node_sorted-insert_node_sorted a b s (honest a b qa qb)) p h [])
