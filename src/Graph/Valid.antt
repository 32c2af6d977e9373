-- ===== src/Graph/Valid.antt =====
-- What holds of the nodes, the leaves, the frontier and the clock of a graph of
-- core/crdt/src/graph.rs, and that a new node whose parents are stored keeps it.
use Prim.Native.Nat.{compare}
use nodalmerge.Base.{
  ℕ, ◌≤◌, ◌≡◌, refl, sym, ap, ◌∙◌, Bool, true, false, not, ◌&&◌, ◌||◌, List, [], ◌∷◌, ◌++◌, none,
  arith, ◌==◌, contains, retain, All, Bool-cases, inl, inr,
}
use nodalmerge.Base.Sort.{IsSorted}
use nodalmerge.Base.Members.{contains-All, contains-retain}
use nodalmerge.Node.{SyncNode}
use nodalmerge.Storage.{MemoryNodeStore, insert_entry, put, holds, contains_node}
use nodalmerge.Frontier.Tips.{contains-push_new, contains-advance}
use nodalmerge.Graph.{StateGraph, remove_leaves, missing_parent, inserted}

-- a stored node names `id` as a parent
unfoldable pub has_child : List SyncNode → ℕ → Bool
has_child [] id = false
has_child (n ∷ entries) id = contains n.transaction.parents id || has_child entries id

abbrev pub Stored : List SyncNode → List ℕ → Type 0
Stored entries ids = All (λ p. holds entries p ≡ true) ids

abbrev pub IsDistinct : List SyncNode → Type 0
IsDistinct [] = Unit
IsDistinct (n ∷ entries) = (holds entries n.id ≡ false) × IsDistinct entries

pub record IsDag (entries : List SyncNode) (leaves : List ℕ) (heads : List ℕ) (lamport : ℕ)
    : Type 0 where
  pub parents_stored : All (λ (n : SyncNode). Stored entries n.transaction.parents) entries
  pub ids_distinct : IsDistinct entries
  pub leaves_are_tips : (x : ℕ) → contains leaves x ≡ (holds entries x && not (has_child entries x))
  pub heads_are_leaves : (x : ℕ) → contains heads x ≡ contains leaves x
  pub heads_sorted : IsSorted compare heads
  pub clock_bounds : All (λ (n : SyncNode). n.transaction.lamport ≤ lamport) entries

-- every parent of a stored node is stored, no id is stored twice, the leaves are the stored nodes
-- without a child, the frontier has the leaves for heads in ascending order, and no stored node is
-- ahead of the graph's clock
abbrev pub IsValid : {P : Type 0} → StateGraph P → Type 0
IsValid g = IsDag g.nodes.entries g.leaves g.frontier.heads g.lamport

pub insert_entry-new :
    (node : SyncNode) (entries : List SyncNode)
    → holds entries node.id ≡ false
    → insert_entry node entries ≡ entries ++ node ∷ []
unfolding insert_entry holds
insert_entry-new node [] h = refl
insert_entry-new node (n ∷ entries) h = elim (Bool-cases (n.id == node.id)) [
  | inl hit ↦ absurd (ground arith)
  | inr miss ↦ rw miss (ap (λ l. n ∷ l) (insert_entry-new node entries (ground arith)))
]

holds-append :
    (entries : List SyncNode) (node : SyncNode) (x : ℕ)
    → holds (entries ++ node ∷ []) x ≡ (holds entries x || node.id == x)
unfolding holds
holds-append [] node x = ground arith
holds-append (n ∷ entries) node x = ground (arith, holds-append entries node x)

has_child-append :
    (entries : List SyncNode) (node : SyncNode) (x : ℕ)
    → has_child (entries ++ node ∷ []) x
      ≡ (has_child entries x || contains node.transaction.parents x)
unfolding has_child
has_child-append [] node x = ground arith
has_child-append (n ∷ entries) node x = ground (arith, has_child-append entries node x)

pub All-append {κ} :
    (Q : SyncNode → Type κ) (entries : List SyncNode) (node : SyncNode)
    → All Q entries
    → Q node
    → All Q (entries ++ node ∷ [])
All-append Q [] node a q = (q, tt)
All-append Q (n ∷ entries) node a q = (a.0, All-append Q entries node a.1 q)

pub All-map {κ μ} :
    {A : Type 0} {Q : A → Type κ} {R : A → Type μ} (l : List A)
    → ((a : A) → Q a → R a)
    → All Q l
    → All R l
All-map [] f h = tt
All-map (a ∷ l) f h = (f a h.0, All-map l f h.1)

Stored-append :
    (entries : List SyncNode) (node : SyncNode) (ids : List ℕ)
    → Stored entries ids
    → Stored (entries ++ node ∷ []) ids
Stored-append entries node ids =
    All-map ids (λ p h. holds-append entries node p ∙ ap (λ b. b || node.id == p) h)

IsDistinct-append :
    (entries : List SyncNode) (node : SyncNode)
    → IsDistinct entries
    → holds entries node.id ≡ false
    → IsDistinct (entries ++ node ∷ [])
unfolding holds
IsDistinct-append [] node d h = (refl, tt)
IsDistinct-append (n ∷ entries) node d h = (
  ground (arith, holds-append entries node n.id),
  IsDistinct-append entries node d.1 (ground arith),
)

-- what is not stored is nobody's parent
has_child-Stored :
    (all entries : List SyncNode) (x : ℕ)
    → All (λ (n : SyncNode). Stored all n.transaction.parents) entries
    → holds all x ≡ false
    → has_child entries x ≡ false
unfolding has_child
has_child-Stored all [] x s h = refl
has_child-Stored all (n ∷ entries) x s h = elim (Bool-cases (contains n.transaction.parents x)) [
  | inl hit ↦
      let stored : holds all x ≡ true =
        contains-All (λ p. holds all p ≡ true) n.transaction.parents x s.0 hit in
      absurd (ground arith)
  | inr miss ↦ rw miss (has_child-Stored all entries x s.1 h)
]

contains-remove_leaves :
    (ps l : List ℕ) (x : ℕ)
    → contains (remove_leaves ps l) x ≡ (contains l x && not (contains ps x))
unfolding remove_leaves contains
contains-remove_leaves [] l x = ground arith
contains-remove_leaves (p ∷ ps) l x =
    ground
      (arith, contains-remove_leaves ps (retain (λ h. not (h == p)) l) x, contains-retain p l x)

pub missing_parent-Stored :
    (store : MemoryNodeStore) (ids : List ℕ)
    → missing_parent store ids ≡ none
    → Stored store.entries ids
unfolding missing_parent contains_node
missing_parent-Stored store [] h = tt
missing_parent-Stored store (p ∷ ids) h = elim (Bool-cases (holds store.entries p)) [
  | inl hit ↦ (hit, missing_parent-Stored store ids (ground arith))
  | inr miss ↦ absurd (ground arith)
]

-- the new node is nobody's child's parent, not even its own
fresh-childless :
    {P : Type 0} (node : SyncNode) (g : StateGraph P)
    → IsValid g
    → Stored g.nodes.entries node.transaction.parents
    → holds g.nodes.entries node.id ≡ false
    → (x : ℕ) → (node.id == x) ≡ true
    → (holds g.nodes.entries x
        || has_child g.nodes.entries x
        || contains node.transaction.parents x)
      ≡ false
fresh-childless node g v parents new x hit =
    let es : List SyncNode = g.nodes.entries in
    let same : node.id ≡ x = ground arith in
    let absent : holds es x ≡ false = ap (holds es) (sym same) ∙ new in
    let childless : has_child es x ≡ false = has_child-Stored es es x v.parents_stored absent in
    elim (Bool-cases (contains node.transaction.parents x)) [
      | inl parent ↦
          let stored : holds es x ≡ true =
            contains-All (λ p. holds es p ≡ true) node.transaction.parents x parents parent in
          absurd (ground arith)
      | inr other ↦ rw (absent, childless, other)
    ]

-- A new node whose parents are all stored keeps the graph valid.
pub inserted-IsValid :
    {P : Type 0} (node : SyncNode) (g : StateGraph P)
    → IsValid g
    → Stored g.nodes.entries node.transaction.parents
    → holds g.nodes.entries node.id ≡ false
    → IsValid (inserted node g)
unfolding inserted put
inserted-IsValid node g v parents new =
    let es : List SyncNode = g.nodes.entries in
    let ps : List ℕ = node.transaction.parents in
    rw (insert_entry-new node es new) (record {
      parents_stored =
          All-append _ es node
            (All-map es (λ n s. Stored-append es node n.transaction.parents s) v.parents_stored)
            (Stored-append es node ps parents);
      ids_distinct = IsDistinct-append es node v.ids_distinct new;
      leaves_are_tips = λ x. ground (
        arith,
        contains-push_new node.id (remove_leaves ps g.leaves) x,
        contains-remove_leaves ps g.leaves x,
        v.leaves_are_tips x,
        holds-append es node x,
        has_child-append es node x,
        fresh-childless node g v parents new x,
      );
      heads_are_leaves = λ x.
          (contains-advance node g.frontier).0 x
          ∙ ap (λ b. node.id == x || (b && not (contains ps x))) (v.heads_are_leaves x)
          ∙ ap (λ b. node.id == x || b) (sym (contains-remove_leaves ps g.leaves x))
          ∙ sym (contains-push_new node.id (remove_leaves ps g.leaves) x);
      heads_sorted = (contains-advance node g.frontier).1;
      clock_bounds =
          All-append _ es node (All-map es (λ n h. ground arith) v.clock_bounds) (ground arith);
    })
