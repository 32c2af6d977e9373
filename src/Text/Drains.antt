-- ===== src/Text/Drains.antt =====
-- The loop of core/crdt/src/text.rs that drains the inserts that wait ends: each of its rounds takes one
-- id from the stack, and an id is put there only as its insert stops waiting.
use nodalmerge.Base.{
  ℕ, zero, suc, ◌+◌, ◌≤◌, ◌≡◌, refl, ap, not, List, [], ◌∷◌, arith, length, retain,
}
use nodalmerge.Op.{OpId}
use nodalmerge.Text.{
  Orphan, TextProjection, integrate, integrate_children, push_children, waits_for, drain_loop,
  drain_orphans_of,
}

length-push_children :
    (children : List Orphan) (stack : List OpId)
    → length (push_children children stack) ≡ length children + length stack
unfolding push_children
length-push_children [] stack = omega arith
length-push_children (o ∷ children) stack =
    omega (arith, length-push_children children (o.child ∷ stack))

length-retain :
    (parent : OpId) (orphans : List Orphan)
    → length (retain (waits_for parent) orphans)
        + length (retain (λ o. not (waits_for parent o)) orphans)
      ≡ length orphans
unfolding retain
length-retain parent [] = refl
length-retain parent (o ∷ orphans) = ground (arith, length-retain parent orphans)

pub integrate_children-orphans :
    (parent : OpId) (children : List Orphan) (s : TextProjection)
    → (integrate_children parent children s).orphans ≡ s.orphans
unfolding integrate_children integrate
integrate_children-orphans parent [] s = refl
integrate_children-orphans parent (o ∷ children) s = integrate_children-orphans parent children _

-- after one round
one_round :
    (rounds : ℕ) (parent : OpId) (stack : List OpId) (s : TextProjection)
    → suc (length stack) + length s.orphans ≤ suc rounds
    → length (push_children (retain (waits_for parent) s.orphans) stack)
        + length
            (integrate_children parent
              (retain (waits_for parent) s.orphans)
              (record s { orphans = retain (λ o. not (waits_for parent o)) s.orphans })).orphans
      ≤ rounds
one_round rounds parent stack s h =
    let children = retain (waits_for parent) s.orphans in
    let left : TextProjection = record s {
      orphans = retain (λ o. not (waits_for parent o)) s.orphans;
    } in
    omega (
      arith,
      length-push_children children stack,
      length-retain parent s.orphans,
      ap length (integrate_children-orphans parent children left),
      h,
    )

-- The `while let` loop, without a bound on its rounds: it leaves the second state when the stack is empty,
-- and else takes the top of the stack, integrates the inserts that wait for it and pushes them.
pub data Drains : List OpId → TextProjection → TextProjection → Type 0 where
  done : (s : TextProjection) → Drains [] s s
  pop :
      (parent : OpId) (stack : List OpId) (s t : TextProjection)
      → Drains
          (push_children (retain (waits_for parent) s.orphans) stack)
          (integrate_children parent
            (retain (waits_for parent) s.orphans)
            (record s { orphans = retain (λ o. not (waits_for parent o)) s.orphans }))
          t
      → Drains (parent ∷ stack) s t

drain_loop-Drains :
    (rounds : ℕ) (stack : List OpId) (s : TextProjection)
    → length stack + length s.orphans ≤ rounds
    → Drains stack s (drain_loop rounds stack s)
unfolding drain_loop
drain_loop-Drains zero [] s h = Drains.done s
drain_loop-Drains (suc rounds) [] s h = Drains.done s
drain_loop-Drains zero (parent ∷ stack) s h = absurd (omega (arith, h))
drain_loop-Drains (suc rounds) (parent ∷ stack) s h =
    Drains.pop parent stack s _
      (drain_loop-Drains rounds _ _ (one_round rounds parent stack s (omega (arith, h))))

-- The loop that drains the inserts which wait, run with an empty stack but for one id, ends, and
-- `drain_orphans_of` gives the state that it ends with.
pub drain_orphans_of-Drains :
    (parent : OpId) (s : TextProjection) → Drains (parent ∷ []) s (drain_orphans_of parent s)
unfolding drain_orphans_of
drain_orphans_of-Drains parent s =
    drain_loop-Drains (suc (length s.orphans)) (parent ∷ []) s (omega arith)
