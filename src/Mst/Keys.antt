-- ===== src/Mst/Keys.antt =====
-- The keys of the Merkle search tree of core/crdt/src/mst.rs are the ids that it is built from.
use Prim.Native.Nat.{compare}
use mathlib.Core.Path.{ap₂}
use nodalmerge.Base.{
  ℕ, zero, suc, ◌+◌, ◌/◌, ◌%◌, ◌<◌, ◌≡◌, refl, sym, ap, ◌∙◌, Bool, true, false, not, ◌||◌, ◌&&◌,
  List, [], ◌∷◌, ◌++◌, Option, inl, inr, arith, ◌==◌, length, contains, retain, Bool-cases,
}
use nodalmerge.Base.Sort.{sort}
use nodalmerge.Base.Members.{contains-append, contains-sort}
use nodalmerge.Mst.{
  MstHash, Nodes, byte_at, nibble_at, nibbles, group_of, leaf, build_groups, build_recursive,
  from_ids, root_hash, stored_keys, collect_set, all_keys_set, difference, simulate_sync,
}

has_key : Nodes → ℕ → Bool
has_key nodes x = contains (stored_keys nodes) x

has_key-append : (a b : Nodes) (x : ℕ) → has_key (a ++ b) x ≡ (has_key a x || has_key b x)
unfolding has_key stored_keys contains
has_key-append [] b x = refl
has_key-append ((path, node) ∷ a) b x = ground (
  arith,
  contains-append node.keys (stored_keys (a ++ b)) x,
  contains-append node.keys (stored_keys a) x,
  has_key-append a b x,
)

pub contains-group_of :
    (depth n : ℕ) (ids : List ℕ) (x : ℕ)
    → contains (group_of depth n ids) x ≡ (contains ids x && nibble_at x depth == n)
unfolding group_of contains retain
contains-group_of depth n [] x = refl
contains-group_of depth n (id ∷ ids) x = ground (arith, contains-group_of depth n ids x, same)
  where
    same : id == x ≡ true → nibble_at id depth ≡ nibble_at x depth
    same e = ap (λ i. nibble_at i depth) (ground arith)

byte_bound : (id i : ℕ) → byte_at id i < 256
unfolding byte_at
byte_bound id i = omega arith

pub nibble_bound : (id depth : ℕ) → nibble_at id depth < 16
unfolding nibble_at
nibble_bound id depth = elim (Bool-cases (depth % 2 == 0)) [
  | inl even ↦ rw even (omega (arith, byte_bound id (depth / 2)))
  | inr odd ↦ rw odd (omega arith)
]

pub contains-nibbles : (k : ℕ) → k < 16 → contains nibbles k ≡ true
unfolding contains
contains-nibbles k h = ground (arith, h)

pub length-zero-contains : (l : List ℕ) (x : ℕ) → (length l == 0) ≡ true → contains l x ≡ false
unfolding contains
length-zero-contains [] x h = refl
length-zero-contains (a ∷ l) x h = absurd (ground (arith, h))

contains-nil : (x : ℕ) → contains [] x ≡ false
unfolding contains
contains-nil x = refl

has_key-nil : (x : ℕ) → has_key [] x ≡ false
unfolding has_key stored_keys contains
has_key-nil x = refl

none_there : (a : Bool) {b : Bool} → b ≡ false → b ≡ (a && false)
none_there a h = ground (arith, h)

joined : {a b c : Bool} → a ≡ c → b ≡ false → (a || b) ≡ c
joined h k = ground (arith, h, k)

and_true : {a b : Bool} → b ≡ true → (a && b) ≡ a
and_true h = ground (arith, h)

-- an inner node has no keys
has_key-inner :
    (path : List ℕ) (hash : ℕ) (children : List (Option ℕ)) (x : ℕ)
    → has_key ((path, record { hash = hash; children = children; keys = [] }) ∷ []) x ≡ false
unfolding has_key stored_keys contains
has_key-inner path hash children x = refl

contains-collect_set : (ids : List ℕ) (x : ℕ) → contains (collect_set ids) x ≡ contains ids x
unfolding collect_set contains
contains-collect_set [] x = refl
contains-collect_set (id ∷ ids) x = ground (arith, contains-collect_set ids x, same)
  where
    same : id == x ≡ true → contains ids id ≡ contains ids x
    same e = ap (contains ids) (ground arith)

module _ (h : MstHash) where
  leaf-keys : (path ids : List ℕ) (x : ℕ) → has_key (leaf h path ids).1 x ≡ contains ids x
  unfolding leaf has_key stored_keys contains
  leaf-keys path ids x = contains-append ids [] x ∙ ground arith

  build_groups-keys :
      (build : List ℕ → List ℕ → ℕ × Nodes) (path ids ns : List ℕ) (x : ℕ)
      → ((path ids : List ℕ) → has_key (build path ids).1 x ≡ contains ids x)
      → has_key (build_groups h build path ids ns).1 x
        ≡ (contains ids x && contains ns (nibble_at x (length path)))
  unfolding build_groups contains
  build_groups-keys build path ids [] x built = none_there (contains ids x) (has_key-nil x)
  build_groups-keys build path ids (n ∷ ns) x built =
      let group = group_of (length path) n ids in
      let here = contains-group_of (length path) n ids x in
      let later = build_groups-keys build path ids ns x built in
      elim (Bool-cases (length group == 0)) [
        | inl empty ↦ rw empty (later ∙ ground (arith, here, length-zero-contains group x empty))
        | inr full ↦ rw full (
            has_key-append (build (path ++ n ∷ []) group).1 (build_groups h build path ids ns).1 x
            ∙ ground (arith, here, later, built (path ++ n ∷ []) group))
      ]

  build_recursive-keys :
      (left : ℕ) (path ids : List ℕ) (x : ℕ)
      → has_key (build_recursive h left path ids).1 x ≡ contains ids x
  unfolding build_recursive
  build_recursive-keys zero path ids x = leaf-keys path ids x
  build_recursive-keys (suc left) path ids x = elim (Bool-cases (length ids == 1)) [
    | inl single ↦ rw single (leaf-keys path ids x)
    | inr more ↦ rw more (
        has_key-append (build_groups h (build_recursive h left) path ids nibbles).1 _ x
        ∙ joined
            (build_groups-keys (build_recursive h left) path ids nibbles x
                (λ p i. build_recursive-keys left p i x)
              ∙ and_true
                  (contains-nibbles (nibble_at x (length path)) (nibble_bound x (length path))))
            (has_key-inner path _ _ x))
  ]

  from_ids-stored : (ids : List ℕ) (x : ℕ) → has_key (from_ids h ids) x ≡ contains ids x
  unfolding from_ids has_key contains stored_keys
  from_ids-stored ids x = elim (Bool-cases (length ids == 0)) [
    | inl empty ↦ rw empty (sym (length-zero-contains ids x empty))
    | inr full ↦ rw full (build_recursive-keys 64 [] (sort compare ids) x ∙ contains-sort ids x)
  ]

  -- The keys of a tree are the ids that it is built from.
  pub from_ids-keys :
      (ids : List ℕ) (x : ℕ) → contains (all_keys_set (from_ids h ids)) x ≡ contains ids x
  unfolding all_keys_set contains has_key
  from_ids-keys ids x =
      contains-collect_set (stored_keys (from_ids h ids)) x ∙ from_ids-stored ids x

contains-difference :
    (mine theirs : List ℕ) (x : ℕ)
    → contains (difference mine theirs) x ≡ (contains mine x && not (contains theirs x))
unfolding difference contains retain
contains-difference [] theirs x = refl
contains-difference (id ∷ mine) theirs x = ground (arith, contains-difference mine theirs x, same)
  where
    same : id == x ≡ true → contains theirs id ≡ contains theirs x
    same e = ap (contains theirs) (ground arith)

-- what a list of keys is found to lack
lacks :
    (h : MstHash) (mine theirs : List ℕ) (x : ℕ)
    → contains (difference (all_keys_set (from_ids h mine)) (all_keys_set (from_ids h theirs))) x
      ≡ (contains mine x && not (contains theirs x))
lacks h mine theirs x =
    contains-difference (all_keys_set (from_ids h mine)) (all_keys_set (from_ids h theirs)) x
    ∙ ap₂ (λ a b. a && not b) (from_ids-keys h mine x) (from_ids-keys h theirs x)

-- Where the root hashes of two trees differ, the ids that the sync finds on one side only are those
-- that it was built from and the other side was not.
pub simulate_sync-difference :
    (h : MstHash) (log16_ceil : ℕ → ℕ) (mine theirs : List ℕ) (x : ℕ)
    → (root_hash (from_ids h mine) == root_hash (from_ids h theirs)) ≡ false
    → (contains (simulate_sync log16_ceil (from_ids h mine) (from_ids h theirs)).only_mine x
        ≡ (contains mine x && not (contains theirs x)))
      × (contains (simulate_sync log16_ceil (from_ids h mine) (from_ids h theirs)).only_theirs x
          ≡ (contains theirs x && not (contains mine x)))
unfolding simulate_sync
simulate_sync-difference h log16_ceil mine theirs x differ =
    let a = difference (all_keys_set (from_ids h mine)) (all_keys_set (from_ids h theirs)) in
    let b = difference (all_keys_set (from_ids h theirs)) (all_keys_set (from_ids h mine)) in
    elim (Bool-cases (length a + length b == 0)) [
      | inr some_diff ↦ rw (differ, some_diff) (lacks h mine theirs x, lacks h theirs mine x)
      | inl no_diff ↦
          let none_a : (length a == 0) ≡ true = ground arith in
          let none_b : (length b == 0) ≡ true = ground arith in
          rw (differ, no_diff)
            (
              contains-nil x ∙ sym (length-zero-contains a x none_a) ∙ lacks h mine theirs x,
              contains-nil x ∙ sym (length-zero-contains b x none_b) ∙ lacks h theirs mine x,
            )
    ]
