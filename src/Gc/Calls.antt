-- ===== src/Gc/Calls.antt =====
-- What a call of core/gc/src leaves: a condition on its result and the world if it succeeds, and one
-- on the world if it fails.
use nodalmerge.Gc.{GcResult, done, refused, Call, proceed, and_then}

module _ {W : Type 0} (Fails : W → Type 0) where
  unfoldable pub Ends : {A : Type 0} → (A → W → Type 0) → GcResult A × W → Type 0
  Ends After (done a, w) = After a w
  Ends After (refused e, w) = Fails w

  proceed-Ends :
      {A B : Type 0} (next : A → Call W B) (Between : A → W → Type 0) (After : B → W → Type 0)
      (r : GcResult A × W)
      → Ends Between r
      → ((a : A) (v : W) → Between a v → Ends After (next a v))
      → Ends After (proceed next r)
  unfolding Ends proceed
  proceed-Ends next Between After (done a, v) h rest = rest a v h
  proceed-Ends next Between After (refused e, v) h rest = h

  -- a sequence of two calls
  pub and_then-Ends :
      {A B : Type 0} (call : Call W A) (next : A → Call W B) (Between : A → W → Type 0)
      (After : B → W → Type 0) (w : W)
      → Ends Between (call w)
      → ((a : A) (v : W) → Between a v → Ends After (next a v))
      → Ends After (and_then call next w)
  unfolding and_then
  and_then-Ends call next Between After w first rest =
      proceed-Ends next Between After (call w) first rest

  -- in both cases
  pub Ends-both :
      {A : Type 0} (After : A → W → Type 0) (r : GcResult A × W)
      → ((a : A) (v : W) → After a v → Fails v)
      → Ends After r
      → Fails r.1
  unfolding Ends
  Ends-both After (done a, v) weaker h = weaker a v h
  Ends-both After (refused e, v) weaker h = h

  pub Ends-weaken :
      {A : Type 0} (After Less : A → W → Type 0) (r : GcResult A × W)
      → ((a : A) (v : W) → After a v → Less a v)
      → Ends After r
      → Ends Less r
  unfolding Ends
  Ends-weaken After Less (done a, v) weaker h = weaker a v h
  Ends-weaken After Less (refused e, v) weaker h = h
