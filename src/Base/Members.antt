-- ===== src/Base/Members.antt =====
-- `contains` after the list operations that the sets of ids go through.
use Prim.Native.Nat.{ℕ, compare}
use mathlib.Core.Path.{◌≡◌, refl, ap, subst, ◌∙◌}
use mathlib.Core.Bool.{true, ◌&&◌, ◌||◌, not}
use mathlib.Core.List.{List, [], ◌∷◌, ◌++◌}
use mathlib.Core.Logic.{inl, inr}
use native.Mathlib.Omega.{arith}
use nodalmerge.Base.Tests.{◌==◌, Bool-cases}
use nodalmerge.Base.Lists.{All, contains, retain}
use nodalmerge.Base.Sort.{insert, sort, IsTotal}

pub compare-IsTotal : IsTotal compare
compare-IsTotal = ground arith

pub contains-append : (l r : List ℕ) (x : ℕ) → contains (l ++ r) x ≡ (contains l x || contains r x)
unfolding contains
contains-append [] r x = refl
contains-append (a ∷ l) r x = ground (arith, contains-append l r x)

pub contains-retain :
    (p : ℕ) (l : List ℕ) (x : ℕ)
    → contains (retain (λ h. not (h == p)) l) x ≡ (contains l x && not (x == p))
unfolding contains retain
contains-retain p [] x = refl
contains-retain p (a ∷ l) x = ground (arith, contains-retain p l x)

contains-insert :
    (a : ℕ) (l : List ℕ) (x : ℕ) → contains (insert compare a l) x ≡ (a == x || contains l x)
unfolding contains insert
contains-insert a [] x = refl
contains-insert a (b ∷ l) x = ground (arith, contains-insert a l x)

pub contains-sort : (l : List ℕ) (x : ℕ) → contains (sort compare l) x ≡ contains l x
unfolding contains sort
contains-sort [] x = refl
contains-sort (a ∷ l) x =
    contains-insert a (sort compare l) x ∙ ap (λ b. a == x || b) (contains-sort l x)

-- a property of all members of a list
pub All-of_contains {κ} :
    {P : ℕ → Type κ} (l : List ℕ) → ((x : ℕ) → contains l x ≡ true → P x) → All P l
unfolding contains
All-of_contains [] h = tt
All-of_contains (a ∷ l) h = (h a (ground arith), All-of_contains l (λ x m. h x (ground arith)))

pub contains-All {κ} : (P : ℕ → Type κ) (l : List ℕ) (x : ℕ) → All P l → contains l x ≡ true → P x
unfolding contains
contains-All P [] x a h = absurd (ground arith)
contains-All P (b ∷ l) x a h = elim (Bool-cases (b == x)) [
  | inl hit ↦ subst P (ground arith) a.0
  | inr miss ↦ contains-All P l x a.1 (ground arith)
]
