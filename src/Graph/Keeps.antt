-- ===== src/Graph/Keeps.antt =====
-- The operations of the graph of core/crdt/src/graph.rs keep it valid.
use nodalmerge.Base.{
  ℕ, ◌<◌, ◌≡◌, refl, true, false, sym, subst, ◌⊎◌, leb, leb→le, ◌≤◌, List, Option, none, arith,
  contains, All, Bool-cases, inl, inr,
}
use nodalmerge.Base.Members.{All-of_contains}
use nodalmerge.Op.{Op}
use nodalmerge.Error.{Result, ok, err}
use nodalmerge.Node.{SyncNode, new_signed, new_unsigned, transaction_hash}
use nodalmerge.Storage.{MemoryNodeStore, contains_node, holds, put}
use nodalmerge.Frontier.{Frontier}
use nodalmerge.Graph.{
  StateGraph, Env, new_graph, insert_node, inserted, missing_parent, u64_max, saturating_add,
}
use nodalmerge.Graph.Valid.{
  IsDag, IsValid, Stored, has_child, inserted-IsValid, insert_entry-new, All-append, All-map,
  missing_parent-Stored,
}
use nodalmerge.Graph.Local.{local_node, local_lamport, finish_local, apply_local}
use nodalmerge.Graph.Remote.{
  check_hash, apply_remote_verified_no_projection, apply_remote_verified, check_node, verify_once,
  apply_remote_checked,
}

abbrev pub OkIsValid : {P : Type 0} → Result (StateGraph P) → Type 0
OkIsValid (ok g) = IsValid g
OkIsValid (err e) = Unit

pub new_graph-IsValid : {P : Type 0} (projections : P) → IsValid (new_graph projections)
unfolding contains holds has_child
new_graph-IsValid projections = record {
  parents_stored = tt;
  ids_distinct = tt;
  leaves_are_tips = λ x. refl;
  heads_are_leaves = λ x. refl;
  heads_sorted = tt;
  clock_bounds = tt;
}

module _ {P : Type 0} where
  insert_node-IsValid :
      (node : SyncNode) (g : StateGraph P)
      → IsValid g
      → Stored g.nodes.entries node.transaction.parents
      → OkIsValid (insert_node node g)
  unfolding insert_node contains_node
  insert_node-IsValid node g v parents = elim (Bool-cases (holds g.nodes.entries node.id)) [
    | inl hit ↦ rw hit tt
    | inr miss ↦ rw miss (inserted-IsValid node g v parents miss)
  ]

  -- the leaves of a valid graph are stored
  leaves-Stored : (g : StateGraph P) → IsValid g → Stored g.nodes.entries g.leaves
  leaves-Stored g v = All-of_contains g.leaves (λ x leaf. ground (arith, v.leaves_are_tips x, leaf))

-- the part of a graph that the validity speaks of
pub record Core : Type 0 where
  pub nodes : MemoryNodeStore
  pub leaves : List ℕ
  pub frontier : Frontier
  pub lamport : ℕ

abbrev pub core : {P : Type 0} → StateGraph P → Core
core g = record { nodes = g.nodes; leaves = g.leaves; frontier = g.frontier; lamport = g.lamport }

abbrev pub CoreIsValid : Core → Type 0
CoreIsValid c = IsDag c.nodes.entries c.leaves c.frontier.heads c.lamport

-- a clock that advances bounds the stored nodes as before
IsDag-later :
    {entries : List SyncNode} {leaves heads : List ℕ} {before after : ℕ}
    → before ≤ after
    → IsDag entries leaves heads before
    → IsDag entries leaves heads after
IsDag-later {entries} le v = record {
  parents_stored = v.parents_stored;
  ids_distinct = v.ids_distinct;
  leaves_are_tips = v.leaves_are_tips;
  heads_are_leaves = v.heads_are_leaves;
  heads_sorted = v.heads_sorted;
  clock_bounds = All-map entries (λ n h. ground arith) v.clock_bounds;
}

module _ {P : Type 0} (env : Env P) where
  open env use {crypto, project}

  -- a node is refused and the core stays, or it is new, has its parents and its hash, and is inserted
  remote-outcome :
      (now : Option ℕ) (node : SyncNode) (g : StateGraph P)
      → (core (apply_remote_checked env now node g).0 ≡ core g)
        ⊎ ((transaction_hash crypto node.transaction ≡ node.id)
            × (missing_parent g.nodes node.transaction.parents ≡ none)
            × (contains_node g.nodes node.id ≡ false)
            × (core (apply_remote_checked env now node g).0 ≡ core (inserted node g)))
  unfolding apply_remote_checked verify_once apply_remote_verified
      apply_remote_verified_no_projection insert_node inserted check_node check_hash
  remote-outcome now node g = ground arith

  -- Whatever node is received, whether it is accepted or not, the graph stays valid.
  pub apply_remote_checked-IsValid :
      (now : Option ℕ) (node : SyncNode) (g : StateGraph P)
      → IsValid g
      → IsValid (apply_remote_checked env now node g).0
  unfolding contains_node
  apply_remote_checked-IsValid now node g v = elim (remote-outcome now node g) [
    | inl same ↦ subst CoreIsValid (sym same) v
    | inr (hash, parents, new, done) ↦ subst CoreIsValid (sym done) (
        inserted-IsValid node g v (missing_parent-Stored g.nodes node.transaction.parents parents)
          new)
  ]

  abbrev CoreHasHashes : Core → Type 0
  CoreHasHashes c =
      All (λ (n : SyncNode). transaction_hash crypto n.transaction ≡ n.id) c.nodes.entries

  -- a local node has the leaves for parents, whether it is signed or not
  local_node-Stored :
      (key : crypto.SigningKey) (wall_ms : ℕ) (ops : List Op) (g : StateGraph P)
      → IsValid g
      → Stored g.nodes.entries (local_node env key wall_ms ops g).transaction.parents
  unfolding local_node new_signed new_unsigned
  local_node-Stored key wall_ms ops g v = elim (Bool-cases g.local_signing) [
    | inl signed ↦ rw signed (leaves-Stored g v)
    | inr unsigned ↦ rw unsigned (leaves-Stored g v)
  ]

  local-outcome :
      (key : crypto.SigningKey) (wall_ms : ℕ) (ops : List Op) (g : StateGraph P)
      → g.lamport < u64_max
      → (leb g.lamport (local_lamport env ops g) ≡ true)
        × ((core (apply_local env key wall_ms ops g).0
              ≡ core (record g { lamport = local_lamport env ops g }))
            ⊎ ((contains_node g.nodes (local_node env key wall_ms ops g).id ≡ false)
                × (core (apply_local env key wall_ms ops g).0
                    ≡ core (
                        inserted
                          (local_node env key wall_ms ops g)
                          (record g { lamport = local_lamport env ops g })))))
  unfolding apply_local finish_local insert_node inserted local_lamport saturating_add
  local-outcome key wall_ms ops g room = ground arith

  -- A local edit keeps the graph valid while the clock can still advance.
  pub apply_local-IsValid :
      (key : crypto.SigningKey) (wall_ms : ℕ) (ops : List Op) (g : StateGraph P)
      → IsValid g
      → g.lamport < u64_max
      → IsValid (apply_local env key wall_ms ops g).0
  unfolding contains_node
  apply_local-IsValid key wall_ms ops g v room =
      let advanced : StateGraph P = record g { lamport = local_lamport env ops g } in
      let outcome = local-outcome key wall_ms ops g room in
      let still : IsValid advanced = IsDag-later (leb→le _ _ outcome.0) v in
      elim outcome.1 [
        | inl same ↦ subst CoreIsValid (sym same) still
        | inr (new, done) ↦ subst CoreIsValid (sym done) (
            inserted-IsValid (local_node env key wall_ms ops g) advanced still
              (local_node-Stored key wall_ms ops g v) new)
      ]

  -- every stored node has the hash of its transaction for an id
  abbrev pub HasHashes : StateGraph P → Type 0
  HasHashes g = All (λ (n : SyncNode). transaction_hash crypto n.transaction ≡ n.id) g.nodes.entries

  inserted-HasHashes :
      (node : SyncNode) (g : StateGraph P)
      → HasHashes g
      → transaction_hash crypto node.transaction ≡ node.id
      → holds g.nodes.entries node.id ≡ false
      → HasHashes (inserted node g)
  unfolding inserted put
  inserted-HasHashes node g h own new =
      rw (insert_entry-new node g.nodes.entries new) (All-append _ g.nodes.entries node h own)

  -- The ids of the stored nodes stay the hashes of their transactions, whatever node is received.
  pub apply_remote_checked-HasHashes :
      (now : Option ℕ) (node : SyncNode) (g : StateGraph P)
      → HasHashes g
      → HasHashes (apply_remote_checked env now node g).0
  unfolding contains_node
  apply_remote_checked-HasHashes now node g h = elim (remote-outcome now node g) [
    | inl same ↦ subst CoreHasHashes (sym same) h
    | inr (hash, parents, new, done) ↦
        subst CoreHasHashes (sym done) (inserted-HasHashes node g h hash new)
  ]
