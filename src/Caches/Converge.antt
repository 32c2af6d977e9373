-- ===== src/Caches/Converge.antt =====
-- The views do not depend on the order in which nodes are admitted, and the map of winners reads as
-- a replay of the nodes does.
use mathlib.Core.List.{Permᴰ}
use nodalmerge.Base.{
  ◌≡◌, ◌≢◌, refl, ap, sym, ◌∙◌, fun_ext, true, false, Bytes, List, [], ◌∷◌, Option, none, some,
  arith, bytes_eq, Bool-cases, All, inl, inr,
}
use nodalmerge.Base.Prio.{Prio, eqp, eqp→eq, eqp_refl}
use nodalmerge.Base.Folds.{run, run-part, run-perm}
use nodalmerge.Op.{Op, Transaction, prio, map_key}
use nodalmerge.Node.{SyncNode}
use nodalmerge.Lww.{MapWinner, winner_prio, map_candidate}
use nodalmerge.Lww.Winners.{better-better}
use nodalmerge.Caches.{StateCaches, update_state_caches}
use nodalmerge.Caches.Slots.{
  first_candidate, offer, node_slot, candidate_prio, update-map_all, update-map_canonical,
}

-- all nodes of a list are admitted as confirmed, one after the other
unfoldable pub admit_all : List SyncNode → StateCaches → StateCaches
unfolding run
admit_all = run (λ n. update_state_caches n true)

first_candidate-prio :
    (tx : Transaction) (key : Bytes) (ops : List Op) (c : MapWinner)
    → first_candidate tx key ops ≡ some c
    → winner_prio c ≡ prio tx
unfolding first_candidate
first_candidate-prio tx key [] c h = absurd (ground arith)
first_candidate-prio tx key (Op.list l ∷ ops) c h = first_candidate-prio tx key ops c h
first_candidate-prio tx key (Op.text t ∷ ops) c h = first_candidate-prio tx key ops c h
first_candidate-prio tx key (Op.map mop ∷ ops) c h =
    elim (Bool-cases (bytes_eq (map_key mop) key)) [
      | inl hit ↦
          let same : map_candidate tx mop ≡ c = ground arith in
          ap winner_prio (sym same) ∙ candidate_prio tx mop
      | inr miss ↦ first_candidate-prio tx key ops c (ground arith)
    ]

offer-offer :
    (slot a b : Option MapWinner)
    → ((c d : MapWinner) → a ≡ some c → b ≡ some d → winner_prio c ≢ winner_prio d)
    → offer a (offer b slot) ≡ offer b (offer a slot)
unfolding offer
offer-offer slot none b h = refl
offer-offer slot (some c) none h = refl
offer-offer slot (some c) (some d) h = ap some (sym (better-better slot c d (h c d refl refl)))

apart : {p q : Prio} → p ≡ q → eqp p q ≢ false
apart {p} {q} e h = ground (arith, eqp_refl p)

-- Two nodes may come in either order, if no two nodes of one priority differ.
node_slot-node_slot :
    (key : Bytes) (a b : SyncNode) (slot : Option MapWinner)
    → (prio a.transaction ≡ prio b.transaction → a ≡ b)
    → node_slot key a (node_slot key b slot) ≡ node_slot key b (node_slot key a slot)
unfolding node_slot
node_slot-node_slot key a b slot honest =
    elim (Bool-cases (eqp (prio a.transaction) (prio b.transaction))) [
      | inl same ↦ let e : a ≡ b = honest (eqp→eq _ _ same) in rw e
      | inr differ ↦
          let ta : Transaction = a.transaction in
          let tb : Transaction = b.transaction in
          let swapped : offer (first_candidate ta key ta.ops)
                (offer (first_candidate tb key tb.ops) slot)
              ≡ offer (first_candidate tb key tb.ops) (offer (first_candidate ta key ta.ops) slot) =
            offer-offer slot (first_candidate ta key ta.ops) (first_candidate tb key tb.ops)
              (λ c d p q e.
                apart
                  (sym (first_candidate-prio ta key ta.ops c p)
                    ∙ e
                    ∙ first_candidate-prio tb key tb.ops d q)
                  differ) in
          ground (arith, swapped)
    ]

-- what a map of winners answers
pub record SameMaps (s t : StateCaches) : Type 0 where
  pub all : s.map_all ≡ t.map_all
  pub canonical : s.map_canonical ≡ t.map_canonical

module _ {μ} (Q : SyncNode → Type μ) where
  -- of the nodes in `Q`, no two that differ carry the same priority
  abbrev pub NoEquivocation : Type μ
  NoEquivocation = (a b : SyncNode) → Q a → Q b → prio a.transaction ≡ prio b.transaction → a ≡ b

  -- Whatever the order in which a set of nodes is admitted, the winner of every key is the same, in
  -- the speculative map and in the canonical one, provided that no two different nodes of the set
  -- have the same lamport clock and author.
  pub admit_all-perm :
      NoEquivocation
      → {xs ys : List SyncNode} → Permᴰ xs ys
      → All Q xs
      → (s : StateCaches) → SameMaps (admit_all xs s) (admit_all ys s)
  unfolding admit_all
  admit_all-perm honest {xs} {ys} p h s =
      let slots : (key : Bytes) (slot : Option MapWinner)
          → run (node_slot key) xs slot ≡ run (node_slot key) ys slot =
        λ key slot.
          run-perm Q (node_slot key)
            (λ a b t qa qb. node_slot-node_slot key a b t (honest a b qa qb)) p h slot in
      let all_parts : (l : List SyncNode) (key : Bytes)
          → (admit_all l s).map_all key ≡ run (node_slot key) l (s.map_all key) =
        λ l key.
          run-part _ (λ t. t.map_all key) (node_slot key) (λ n t. update-map_all n t true key) l
            s in
      let canonical_parts : (l : List SyncNode) (key : Bytes)
          → (admit_all l s).map_canonical key ≡ run (node_slot key) l (s.map_canonical key) =
        λ l key.
          run-part _ (λ t. t.map_canonical key) (node_slot key)
            (λ n t. update-map_canonical n t key) l s in
      record {
        all =
            fun_ext (λ key. all_parts xs key ∙ slots key (s.map_all key) ∙ sym (all_parts ys key));
        canonical = fun_ext (λ key.
            canonical_parts xs key
            ∙ slots key (s.map_canonical key)
            ∙ sym (canonical_parts ys key));
      }
