-- ===== src/Text/Converge.antt =====
-- Updates of core/crdt/src/text.rs that come in different orders, each after its anchor.
use mathlib.Core.List.{Permᴰ, Perm, append_of_mem, perm_middle, mem-cons_self}
use mathlib.Core.List.Perm
use mathlib.Core.Logic.{∥∥₁_elim}
use nodalmerge.Base.{
  ℕ, ◌≡◌, refl, sym, ap, subst, ◌∙◌, Bool, true, false, ◌&&◌, List, [], ◌∷◌, ◌++◌, Option, none,
  some, inl, inr, arith, retain, Bool-cases,
}
use nodalmerge.Base.Prio.{eqp}
use nodalmerge.Op.{OpId}
use nodalmerge.Text.{
  Item, TextProjection, set_flag, is_orphan, integrate_children, push_children, has_item, integrate,
  drain_loop, drain_orphans_of, apply_insert, is_deleted, mark_deleted, delete_known, apply_delete,
  ProjectionUpdateOp, apply_update, apply_updates_coalesced,
}
use nodalmerge.Text.Sequence.{insert_at-integration_loc, has_anchor}
use nodalmerge.Text.Shown.{IsShown, shown, apply_updates_coalesced-IsShown}
use nodalmerge.Text.Updates.{
  mark_deleted-missing, Doc, step, is_ready, is_new, step-step, is_new-step, is_ready-step,
  is_ready-is_new, is_new_swap,
}

-- each update is ready when its turn comes
unfoldable pub is_causal : List ProjectionUpdateOp → Doc → Bool
is_causal [] d = true
is_causal (x ∷ updates) d = is_ready x d && is_causal updates (step x d)

unfoldable steps : List ProjectionUpdateOp → Doc → Doc
steps [] d = d
steps (x ∷ updates) d = steps updates (step x d)

both : (a b : Bool) → (a && b) ≡ true → (a ≡ true) × (b ≡ true)
both a b h = (ground arith, ground arith)

-- an update that comes later is new before
later-is_new :
    (pre post : List ProjectionUpdateOp) (x : ProjectionUpdateOp) (d : Doc)
    → is_causal (pre ++ x ∷ post) d ≡ true
    → is_new x d ≡ true
unfolding is_causal
later-is_new [] post x d h = is_ready-is_new x d (both _ _ h).0
later-is_new (y ∷ pre) post x d h =
    is_new-step x y d (later-is_new pre post x (step y d) (both _ _ h).1)

-- an update that is ready now may come first
to_front :
    (pre post : List ProjectionUpdateOp) (x : ProjectionUpdateOp) (d : Doc)
    → is_ready x d ≡ true
    → is_causal (pre ++ x ∷ post) d ≡ true
    → (is_causal (pre ++ post) (step x d) ≡ true)
      × (steps (pre ++ x ∷ post) d ≡ steps (pre ++ post) (step x d))
unfolding is_causal steps
to_front [] post x d ready h = ((both _ _ h).1, refl)
to_front (y ∷ pre) post x d ready h =
    let parts = both _ _ h in
    let new = later-is_new pre post x (step y d) parts.1 in
    let still = is_ready-step x y d ready new in
    let rest = to_front pre post x (step y d) still parts.1 in
    let swap = step-step x y d ready parts.0 still in
    let first = is_ready-step y x d parts.0 (is_new_swap x y d parts.0 new) in
    (
      rw (first) (subst (λ e. is_causal (pre ++ post) e ≡ true) swap rest.0),
      rest.1 ∙ ap (steps (pre ++ post)) swap,
    )

-- a document is a set, as are its parts
Doc-set : IsSet Doc
Doc-set = hlevel

steps-perm :
    (updates updates' : List ProjectionUpdateOp) (d : Doc)
    → Perm updates updates'
    → is_causal updates d ≡ true
    → is_causal updates' d ≡ true
    → steps updates d ≡ steps updates' d
unfolding is_causal steps
steps-perm [] updates' d p h k = ap (λ l. steps l d) (Perm.nil-eq p)
steps-perm (x ∷ updates) updates' d p h k =
    ∥∥₁_elim (append_of_mem ((Perm.mem_iff p).0 mem-cons_self)) (Doc-set _ _) (λ w.
      let pre = w.0 in
      let post = w.1 in
      let split : updates' ≡ pre ++ x ∷ post = w.2 in
      let front =
        to_front pre post x d (both _ _ h).0 (subst (λ l. is_causal l d ≡ true) split k) in
      let rest =
        Perm.cons_inv
          (Perm.trans (subst (λ l. Perm (x ∷ updates) l) split p) (perm_middle pre post)) in
      steps-perm updates (pre ++ post) (step x d) rest (both _ _ h).1 front.0
      ∙ sym (front.1)
      ∙ ap (λ l. steps l d) (sym split))

-- what of a projection decides its text
unfoldable pub doc : TextProjection → Doc
doc s = record { items = s.items; pending = s.pending_deletes }

drain_none :
    (id : OpId) (s : TextProjection)
    → s.orphans ≡ []
    → (doc (drain_orphans_of id s) ≡ doc s) × ((drain_orphans_of id s).orphans ≡ [])
unfolding doc drain_orphans_of drain_loop integrate_children push_children retain
drain_none id s alone = rw alone (refl, refl)

integrate-step :
    (id : OpId) (after : Option OpId) (ch : ℕ) (s : TextProjection)
    → doc (integrate id after ch s) ≡ step (ProjectionUpdateOp.insert id after ch) (doc s)
unfolding doc integrate step
integrate-step id after ch s =
    ap (λ items. record { items = items; pending = set_flag id false s.pending_deletes })
      (insert_at-integration_loc after _ s.items)

integrate-orphans :
    (id : OpId) (after : Option OpId) (ch : ℕ) (s : TextProjection)
    → (integrate id after ch s).orphans ≡ s.orphans
unfolding integrate
integrate-orphans id after ch s = refl

-- an insert that is ready is integrated, and drains nothing
insert-ready :
    (id : OpId) (after : Option OpId) (ch : ℕ) (s : TextProjection)
    → s.orphans ≡ []
    → is_ready (ProjectionUpdateOp.insert id after ch) (doc s) ≡ true
    → apply_insert id after ch s ≡ drain_orphans_of id (integrate id after ch s)
unfolding is_ready doc apply_insert has_anchor is_orphan
insert-ready id none ch s alone ready =
    let new : has_item id s.items ≡ false = ground arith in rw (alone, new) refl
insert-ready id (some p) ch s alone ready =
    let new : has_item id s.items ≡ false = ground arith in
    let there : has_item p s.items ≡ true = ground arith in rw (alone, new, there) refl

-- a tombstone is set once
mark_deleted-gone :
    (target : OpId) (items : List Item)
    → is_deleted target items ≡ true
    → mark_deleted target items ≡ items
unfolding mark_deleted is_deleted
mark_deleted-gone target [] gone = refl
mark_deleted-gone target (x ∷ items) gone = elim (Bool-cases (eqp x.id target)) [
  | inl here ↦
      let e : x.deleted ≡ true = ground arith in
      rw here (ap (λ flag. record x { deleted = flag } ∷ items) (sym e))
  | inr other ↦ rw other (ap (λ l. x ∷ l) (mark_deleted-gone target items (ground arith)))
]

delete-step :
    (t : OpId) (s : TextProjection)
    → (doc (apply_delete t s) ≡ step (ProjectionUpdateOp.delete t) (doc s))
      × ((apply_delete t s).orphans ≡ s.orphans)
unfolding doc step apply_delete delete_known
delete-step t s = elim (Bool-cases (has_item t s.items)) [
  | inr missing ↦ rw missing (
    ap (λ items. record { items = items; pending = set_flag t true s.pending_deletes })
        (sym (mark_deleted-missing t s.items missing)),
    refl,
  )
  | inl known ↦ elim (Bool-cases (is_deleted t s.items)) [
    | inl gone ↦
        rw (known, gone)
          (
            ap (λ items. record { items = items; pending = s.pending_deletes })
                (sym (mark_deleted-gone t s.items gone)),
            refl,
          )
    | inr there ↦ rw (known, there) (refl, refl)
  ]
]

-- an update that is ready takes its step, and leaves no orphan
apply_update-step :
    (x : ProjectionUpdateOp) (s : TextProjection)
    → s.orphans ≡ []
    → is_ready x (doc s) ≡ true
    → (doc (apply_update x s) ≡ step x (doc s)) × ((apply_update x s).orphans ≡ [])
unfolding apply_update
apply_update-step (ProjectionUpdateOp.insert id after ch) s alone ready =
    let drained =
      drain_none id (integrate id after ch s) (integrate-orphans id after ch s ∙ alone) in
    let e = insert-ready id after ch s alone ready in
    rw e (drained.0 ∙ integrate-step id after ch s, drained.1)
apply_update-step (ProjectionUpdateOp.delete t) s alone ready =
    let e = delete-step t s in (e.0, e.1 ∙ alone)

apply_updates_coalesced-steps :
    (updates : List ProjectionUpdateOp) (s : TextProjection)
    → s.orphans ≡ []
    → is_causal updates (doc s) ≡ true
    → doc (apply_updates_coalesced updates s) ≡ steps updates (doc s)
unfolding apply_updates_coalesced steps is_causal
apply_updates_coalesced-steps [] s alone h = refl
apply_updates_coalesced-steps (x ∷ updates) s alone h =
    let one = apply_update-step x s alone (both _ _ h).0 in
    apply_updates_coalesced-steps updates (apply_update x s) one.1 (rw (one.0) ((both _ _ h).1))
    ∙ ap (steps updates) one.0

-- Two orders of the same inserts and deletes in which every insert is new and comes after its
-- anchor, while a delete may come at any time, give the same items, pending deletes and visible
-- string, if no insert waits at the start and the string is that of the items.
pub apply_updates_coalesced-perm :
    (updates updates' : List ProjectionUpdateOp) (s : TextProjection)
    → Permᴰ updates updates'
    → s.orphans ≡ []
    → IsShown s
    → is_causal updates (doc s) ≡ true
    → is_causal updates' (doc s) ≡ true
    → ((apply_updates_coalesced updates s).items ≡ (apply_updates_coalesced updates' s).items)
      × ((apply_updates_coalesced updates s).pending_deletes
          ≡ (apply_updates_coalesced updates' s).pending_deletes)
      × ((apply_updates_coalesced updates s).visible_string
          ≡ (apply_updates_coalesced updates' s).visible_string)
unfolding doc IsShown
apply_updates_coalesced-perm updates updates' s perm alone h causal causal' =
    let same : doc (apply_updates_coalesced updates s) ≡ doc (apply_updates_coalesced updates' s) =
      apply_updates_coalesced-steps updates s alone causal
      ∙ steps-perm updates updates' (doc s) ∣ perm ∣₁ causal causal'
      ∙ sym (apply_updates_coalesced-steps updates' s alone causal') in
    let items = ap (λ d. d.items) same in
    (items, ap (λ d. d.pending) same, string updates ∙ ap shown items ∙ sym (string updates'))
  where
    string :
        (l : List ProjectionUpdateOp)
        → (apply_updates_coalesced l s).visible_string ≡ shown (apply_updates_coalesced l s).items
    string l = (apply_updates_coalesced-IsShown l s h).0
