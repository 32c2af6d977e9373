-- ===== src/Tests/Maps.antt =====
-- The views of the map and the frontier at concrete inputs.
use Prim.Native.Nat.{compare}
use mathlib.Core.List.{Permᴰ}
use nodalmerge.Base.{
  ℕ, ◌≡◌, ◌≢◌, ◌⊎◌, inl, inr, refl, sym, ap, ◌∙◌, true, false, not, ◌&&◌, ◌||◌, Bytes, List, [],
  ◌∷◌, some, arith, ◌==◌, contains, bytes_eq,
}
use nodalmerge.Base.Prio.{gtp, eqp}
use nodalmerge.Base.Folds.{run}
use nodalmerge.Base.Sort.{IsSorted}
use nodalmerge.Op.{Op, MapOp, prio, map_key}
use nodalmerge.Node.{SyncNode}
use nodalmerge.Frontier.{Frontier, advance}
use nodalmerge.Frontier.Tips.{contains-advance}
use nodalmerge.Lww.{resolve_map, resolve_replay, winner_value, better, map_candidate, lww_update}
use nodalmerge.Caches.{empty_caches, update_state_caches, apply_ops, apply_op, apply_map_op}
use nodalmerge.Caches.Converge.{admit_all, SameMaps, admit_all-perm}
use nodalmerge.Caches.Replay.{admit_marked, admit_marked-resolve_replay}

abbrev title : Bytes
title = b't' ∷ []

abbrev node_of : ℕ → ℕ → ℕ → List Op → SyncNode
node_of id author lamport ops = record {
  id = id;
  transaction = record { author = author; lamport = lamport; wall_ms = 0; ops = ops; parents = [] };
  signature = 0;
}

-- two concurrent writes and a later deletion
abbrev first_write : SyncNode
first_write = node_of 1 7 1 (Op.map (MapOp.set title (b'a' ∷ [])) ∷ [])

abbrev other_write : SyncNode
other_write = node_of 2 9 1 (Op.map (MapOp.set title (b'b' ∷ [])) ∷ [])

-- the greater author wins
other_write_wins :
    resolve_map (admit_all (first_write ∷ other_write ∷ []) empty_caches).map_all title
    ≡ some (b'b' ∷ [])
unfolding admit_all run update_state_caches apply_ops apply_op apply_map_op lww_update better
    map_candidate map_key resolve_map winner_value bytes_eq gtp eqp
other_write_wins = refl

abbrev Known : SyncNode → Type 0
Known n = (n ≡ first_write) ⊎ (n ≡ other_write)

authors_differ : first_write.transaction.author ≢ other_write.transaction.author
authors_differ = omega arith

Known-honest :
    (a b : SyncNode) → Known a → Known b → prio a.transaction ≡ prio b.transaction → a ≡ b
Known-honest a b (inl p) (inl q) h = p ∙ sym q
Known-honest a b (inr p) (inr q) h = p ∙ sym q
Known-honest a b (inl p) (inr q) h = absurd (
    authors_differ (
      ap (λ (n : SyncNode). n.transaction.author) (sym p)
      ∙ ap (λ r. r.author) h
      ∙ ap (λ (n : SyncNode). n.transaction.author) q))
Known-honest a b (inr p) (inl q) h = absurd (
    authors_differ (
      ap (λ (n : SyncNode). n.transaction.author) (sym q)
      ∙ ap (λ r. r.author) (sym h)
      ∙ ap (λ (n : SyncNode). n.transaction.author) p))

admit_all-perm_example :
    SameMaps
      (admit_all (first_write ∷ other_write ∷ []) empty_caches)
      (admit_all (other_write ∷ first_write ∷ []) empty_caches)
admit_all-perm_example =
    admit_all-perm Known Known-honest (Permᴰ.swap refl refl) (inl refl, (inr refl, tt)) empty_caches

admit_marked-resolve_replay_example :
    (resolve_map (admit_marked (2 ∷ []) (first_write ∷ other_write ∷ []) empty_caches).map_all
      ≡ resolve_replay false (2 ∷ []) (first_write ∷ other_write ∷ []))
    × (resolve_map
          (admit_marked (2 ∷ []) (first_write ∷ other_write ∷ []) empty_caches).map_canonical
        ≡ resolve_replay true (2 ∷ []) (first_write ∷ other_write ∷ []))
admit_marked-resolve_replay_example =
    admit_marked-resolve_replay (2 ∷ []) (first_write ∷ other_write ∷ [])

abbrev two_heads : Frontier
two_heads = record { heads = 1 ∷ 2 ∷ [] }

contains-advance_example :
    ((x : ℕ)
      → contains (advance first_write two_heads).heads x ≡ (
          first_write.id == x
          || (contains two_heads.heads x && not (contains first_write.transaction.parents x))))
    × IsSorted compare (advance first_write two_heads).heads
contains-advance_example = contains-advance first_write two_heads
