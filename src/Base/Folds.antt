-- ===== src/Base/Folds.antt =====
-- A loop over a list whose steps commute gives one result for every order of the list.
use mathlib.Core.Path.{◌≡◌, refl, sym, ap, ap₂, subst, ◌∙◌}
use mathlib.Core.List.{List, [], ◌∷◌, Permᴰ}
use nodalmerge.Base.Lists.{All}

module _ {ℓ κ} {A : Type ℓ} {S : Type κ} where
  -- `for a in list { s = step(a, s) }`
  unfoldable pub run : (A → S → S) → List A → S → S
  run step [] s = s
  run step (a ∷ l) s = run step l (step a s)

  pub run-congr :
      (step step' : A → S → S)
      → ((a : A) (s : S) → step a s ≡ step' a s)
      → (l : List A) (s : S) → run step l s ≡ run step' l s
  unfolding run
  run-congr step step' h [] s = refl
  run-congr step step' h (a ∷ l) s = rw (h a s) (run-congr step step' h l (step' a s))

-- a part of the state that a step determines from that part alone
pub run-part {ℓ κ μ} :
    {A : Type ℓ} {S : Type κ} {T : Type μ} (step : A → S → S) (part : S → T) (step' : A → T → T)
    → ((a : A) (s : S) → part (step a s) ≡ step' a (part s))
    → (l : List A) (s : S) → part (run step l s) ≡ run step' l (part s)
unfolding run
run-part step part step' h [] s = refl
run-part step part step' h (a ∷ l) s =
    run-part step part step' h l (step a s) ∙ ap (run step' l) (h a s)

module _ {ℓ} {A : Type ℓ} where
  pub Permᴰ-refl : (l : List A) → Permᴰ l l
  Permᴰ-refl [] = Permᴰ.nil
  Permᴰ-refl (a ∷ l) = Permᴰ.cons refl (Permᴰ-refl l)

  pub Permᴰ-symm : {xs ys : List A} → Permᴰ xs ys → Permᴰ ys xs
  Permᴰ-symm Permᴰ.nil = Permᴰ.nil
  Permᴰ-symm (Permᴰ.cons e p) = Permᴰ.cons (sym e) (Permᴰ-symm p)
  Permᴰ-symm (Permᴰ.swap e f) = Permᴰ.swap (sym f) (sym e)
  Permᴰ-symm (Permᴰ.trans p q) = Permᴰ.trans (Permᴰ-symm q) (Permᴰ-symm p)

module _ {ℓ κ μ} {A : Type ℓ} {S : Type κ} (Q : A → Type μ) (step : A → S → S) where
  All-perm : {xs ys : List A} → Permᴰ xs ys → All Q xs → All Q ys
  All-perm Permᴰ.nil h = tt
  All-perm (Permᴰ.cons e p) h = (subst Q e h.0, All-perm p h.1)
  All-perm (Permᴰ.swap e f) h = (subst Q f h.1.0, (subst Q e h.0, h.1.1))
  All-perm (Permᴰ.trans p q) h = All-perm q (All-perm p h)

  pub run-perm :
      ((a b : A) (s : S) → Q a → Q b → step a (step b s) ≡ step b (step a s))
      → {xs ys : List A} → Permᴰ xs ys
      → All Q xs
      → (s : S) → run step xs s ≡ run step ys s
  unfolding run
  run-perm comm Permᴰ.nil h s = refl
  run-perm comm (Permᴰ.cons {l₂ = l₂} e p) h s =
      run-perm comm p h.1 _ ∙ ap (λ x. run step l₂ (step x s)) e
  run-perm comm (Permᴰ.swap {a = a} {b = b} {l = l} e f) h s =
      ap (run step l) (comm b a s h.1.0 h.0) ∙ ap₂ (λ x y. run step l (step x (step y s))) e f
  run-perm comm (Permᴰ.trans p q) h s = run-perm comm p h s ∙ run-perm comm q (All-perm p h) s

run_past {ℓ κ μ} :
    {A : Type ℓ} {B : Type κ} {S : Type μ} (f : A → S → S) (g : B → S → S)
    → ((a : A) (b : B) (s : S) → f a (g b s) ≡ g b (f a s))
    → (a : A) (m : List B) (s : S) → f a (run g m s) ≡ run g m (f a s)
unfolding run
run_past f g comm a [] s = refl
run_past f g comm a (b ∷ m) s = run_past f g comm a m (g b s) ∙ ap (run g m) (comm a b s)

-- loops of which each step commutes with each step of the other commute
pub run-run {ℓ κ μ} :
    {A : Type ℓ} {B : Type κ} {S : Type μ} (f : A → S → S) (g : B → S → S)
    → ((a : A) (b : B) (s : S) → f a (g b s) ≡ g b (f a s))
    → (l : List A) (m : List B) (s : S) → run f l (run g m s) ≡ run g m (run f l s)
unfolding run
run-run f g comm [] m s = refl
run-run f g comm (a ∷ l) m s = ap (run f l) (run_past f g comm a m s) ∙ run-run f g comm l m (f a s)
