-- ===== src/Base/Prio.antt =====
-- The pair `(lamport, author)` by which concurrent operations are ordered.
use Prim.Native.Nat.{ℕ}
use mathlib.Core.Path.{◌≡◌}
use mathlib.Core.Logic.{◌≢◌}
use mathlib.Core.Bool.{Bool, true, false, ◌&&◌, ◌||◌, not}
use native.Mathlib.Omega.{arith}
use nodalmerge.Base.Tests.{ltb, ◌==◌}

pub record Prio : Type 0 where
  pub lamport : ℕ
  pub author : ℕ

abbrev pub zero_prio : Prio
zero_prio = record { lamport = 0; author = 0 }

-- `a > b` on the tuples
unfoldable pub gtp : Prio → Prio → Bool
gtp a b = ltb b.lamport a.lamport || (a.lamport == b.lamport && ltb b.author a.author)

-- `a == b` on the tuples
unfoldable pub eqp : Prio → Prio → Bool
eqp a b = a.lamport == b.lamport && a.author == b.author

pub gtp_irrefl : (a : Prio) → gtp a a ≡ false
unfolding gtp
gtp_irrefl a = ground arith

pub gtp_trans : (a b c : Prio) → gtp a b ≡ true → gtp b c ≡ true → gtp a c ≡ true
unfolding gtp
gtp_trans a b c h k = ground arith

pub gtp_asym : (a b : Prio) → gtp a b ≡ true → gtp b a ≡ false
unfolding gtp
gtp_asym a b h = ground arith

pub gtp_total : (a b : Prio) → gtp a b ≡ false → gtp b a ≡ false → a ≡ b
unfolding gtp
gtp_total a b h k = ground arith

pub eqp→eq : (a b : Prio) → eqp a b ≡ true → a ≡ b
unfolding eqp
eqp→eq a b h = ground arith

pub eqp_refl : (a : Prio) → eqp a a ≡ true
unfolding eqp
eqp_refl a = ground arith

-- a priority other than zero beats it
pub gtp-zero : (a : Prio) → gtp a zero_prio ≡ not (eqp a zero_prio)
unfolding gtp eqp
gtp-zero a = ground arith

-- the zero priority beats none
pub gtp_of_zero : (a b : Prio) → eqp a zero_prio ≡ true → gtp a b ≡ false
unfolding gtp eqp
gtp_of_zero a b h = ground arith

pub eqp-ne : (a b : Prio) → eqp a b ≡ false → a ≢ b
eqp-ne a b h e = ground (arith, eqp_refl a)

pub eqp_comm : (a b : Prio) → eqp a b ≡ eqp b a
unfolding eqp
eqp_comm a b = ground arith
