-- ===== src/Frontier/Tips.antt =====
-- The members of a frontier after a new node.
use Prim.Native.Nat.{compare}
use nodalmerge.Base.{ℕ, ◌≡◌, ap, ◌∙◌, not, ◌&&◌, ◌||◌, List, [], ◌∷◌, arith, ◌==◌, contains, retain}
use nodalmerge.Base.Sort.{IsSorted, sort-IsSorted}
use nodalmerge.Base.Members.{compare-IsTotal, contains-append, contains-retain, contains-sort}
use nodalmerge.Node.{SyncNode}
use nodalmerge.Frontier.{Frontier, remove_each, push_new, advance}

pub contains-push_new :
    (id : ℕ) (l : List ℕ) (x : ℕ) → contains (push_new id l) x ≡ (id == x || contains l x)
unfolding push_new contains
contains-push_new id l x = ground (arith, contains-append l (id ∷ []) x)

contains-remove_each :
    (ps l : List ℕ) (x : ℕ) → contains (remove_each ps l) x ≡ (contains l x && not (contains ps x))
unfolding remove_each contains
contains-remove_each [] l x = ground arith
contains-remove_each (p ∷ ps) l x =
    ground (arith, contains-remove_each ps (retain (λ h. not (h == p)) l) x, contains-retain p l x)

-- A frontier that advances by a node has the node for a head and keeps the heads that are no
-- parent of it, and its heads are in ascending order.
pub contains-advance :
    (node : SyncNode) (f : Frontier)
    → ((x : ℕ)
        → contains (advance node f).heads x
          ≡ (node.id == x || (contains f.heads x && not (contains node.transaction.parents x))))
      × IsSorted compare (advance node f).heads
unfolding advance
contains-advance node f =
    let kept : List ℕ = remove_each node.transaction.parents f.heads in
    (
      (λ x.
          contains-sort (push_new node.id kept) x
          ∙ contains-push_new node.id kept x
          ∙ ap (λ b. node.id == x || b) (contains-remove_each node.transaction.parents f.heads x)),
      sort-IsSorted compare compare-IsTotal (push_new node.id kept),
    )
