-- ===== src/Mst.antt =====
-- The Merkle search tree of core/crdt/src/mst.rs: ids are sorted into a trie of their 64 nibbles, in which
-- a branch with one id ends. An id is a number below 2^256. The hash map of nodes is a list of paths and
-- nodes, and the depth that is left is counted down from 64. The keyed hashes, and the logarithm
-- that is taken in floating point, are parameters.
pub mod Keys
pub mod Paths
pub mod Roots
use Prim.Native.Nat.{compare, max}
use nodalmerge.Base.{
  ℕ, zero, suc, ◌+◌, ◌-◌, ◌*◌, ◌/◌, ◌%◌, ◌^◌, min, Bool, true, false, not, ◌&&◌, List, [], ◌∷◌,
  ◌++◌, map, Option, none, some, ◌==◌, ltb, if◌then◌else◌, length, contains, retain,
}
use nodalmerge.Base.Sort.{sort}

pub record MstHash : Type 0 where
  pub leaf_hash : List ℕ → ℕ
  pub internal_hash : List (Option ℕ) → ℕ

pub record MstNode : Type 0 where
  pub hash : ℕ
  pub children : List (Option ℕ)
  pub keys : List ℕ

abbrev pub Nodes : Type 0
Nodes = List (List ℕ × MstNode)

-- `id.0[i]`
unfoldable pub byte_at : ℕ → ℕ → ℕ
byte_at id i = id / 256 ^ (31 - i) % 256

unfoldable pub nibble_at : ℕ → ℕ → ℕ
unfolding byte_at
nibble_at id depth =
    if depth % 2 == 0 then byte_at id (depth / 2) / 16 else byte_at id (depth / 2) % 16

abbrev pub nibbles : List ℕ
nibbles = 0 ∷ 1 ∷ 2 ∷ 3 ∷ 4 ∷ 5 ∷ 6 ∷ 7 ∷ 8 ∷ 9 ∷ 10 ∷ 11 ∷ 12 ∷ 13 ∷ 14 ∷ 15 ∷ []

-- `[None; 16]`
abbrev pub no_children : List (Option ℕ)
no_children = map (λ n. none) nibbles

unfoldable pub group_of : ℕ → ℕ → List ℕ → List ℕ
group_of depth n ids = retain (λ id. nibble_at id depth == n) ids

module _ (h : MstHash) where
  unfoldable pub leaf : List ℕ → List ℕ → ℕ × Nodes
  leaf path ids =
      let hash = h.leaf_hash ids in
      (hash, (path, record { hash = hash; children = no_children; keys = ids }) ∷ [])

  -- the loop over the groups, which are built by `build`
  unfoldable pub build_groups :
      (List ℕ → List ℕ → ℕ × Nodes) → List ℕ → List ℕ → List ℕ → List (Option ℕ) × Nodes
  build_groups build path ids [] = ([], [])
  build_groups build path ids (n ∷ ns) =
      let group = group_of (length path) n ids in
      let rest = build_groups build path ids ns in
      let child = build (path ++ n ∷ []) group in
      if length group == 0
      then (none ∷ rest.0, rest.1)
      else (some child.0 ∷ rest.0, child.1 ++ rest.1)

  unfoldable pub build_recursive : ℕ → List ℕ → List ℕ → ℕ × Nodes
  build_recursive zero path ids = leaf path ids
  build_recursive (suc left) path ids =
      let built = build_groups (build_recursive left) path ids nibbles in
      let hash = h.internal_hash built.0 in
      if length ids == 1
      then leaf path ids
      else (hash, built.1 ++ (path, record { hash = hash; children = built.0; keys = [] }) ∷ [])

  unfoldable pub from_ids : List ℕ → Nodes
  unfolding sort
  from_ids ids = if length ids == 0 then [] else (build_recursive 64 [] (sort compare ids)).1

-- the node at the empty path
unfoldable pub root_hash : Nodes → ℕ
root_hash [] = 0
root_hash (([], node) ∷ nodes) = node.hash
root_hash ((n ∷ path, node) ∷ nodes) = root_hash nodes

unfoldable pub stored_keys : Nodes → List ℕ
stored_keys [] = []
stored_keys ((path, node) ∷ nodes) = node.keys ++ stored_keys nodes

-- each id once, as a hash set holds it
unfoldable pub collect_set : List ℕ → List ℕ
collect_set [] = []
collect_set (id ∷ ids) = let rest = collect_set ids in if contains ids id then rest else id ∷ rest

unfoldable pub all_keys_set : Nodes → List ℕ
unfolding stored_keys collect_set
all_keys_set nodes = collect_set (stored_keys nodes)

pub record MstSyncSim : Type 0 where
  pub round_trips : ℕ
  pub bytes_sent : ℕ
  pub only_mine : List ℕ
  pub only_theirs : List ℕ

abbrev pub no_sync : MstSyncSim
no_sync = record { round_trips = 0; bytes_sent = 0; only_mine = []; only_theirs = [] }

unfoldable pub difference : List ℕ → List ℕ → List ℕ
difference mine theirs = retain (λ id. not (contains theirs id)) mine

-- the loop that finds the depth at which so many ids are apart
unfoldable pub depth_loop : ℕ → ℕ → ℕ → ℕ → ℕ
depth_loop zero depth cells n_diff = depth
depth_loop (suc rounds) depth cells n_diff =
    let deeper = depth_loop rounds (depth + 1) (cells * 16) n_diff in
    if ltb cells n_diff && ltb depth 16 then deeper else depth

unfoldable pub simulate_sync : (ℕ → ℕ) → Nodes → Nodes → MstSyncSim
simulate_sync log16_ceil mine theirs =
    let my_keys = all_keys_set mine in
    let their_keys = all_keys_set theirs in
    let only_mine = difference my_keys their_keys in
    let only_theirs = difference their_keys my_keys in
    let n_diff = length only_mine + length only_theirs in
    let n_total = max (length my_keys) (length their_keys) in
    let trie_depth = if ltb n_total 2 then 1 else log16_ceil n_total in
    let round_trips = min (min (depth_loop 15 1 16 n_diff + 1) trie_depth) 16 in
    if root_hash mine == root_hash theirs
    then no_sync
    else if n_diff == 0
    then no_sync
    else record {
      round_trips = round_trips;
      bytes_sent = round_trips * max (length only_theirs) 1 * 300;
      only_mine = only_mine;
      only_theirs = only_theirs;
    }
