-- ===== src/FracIdx/Digits.antt =====
-- The digits of a fractional index: `val` and `ch` are inverse and keep the order.
use nodalmerge.Base.{ℕ, ◌<◌, ◌≡◌, some, arith}
use nodalmerge.FracIdx.{val, ch}

-- a byte of the alphabet
abbrev pub IsDigit : ℕ → Type 0
IsDigit b = (d : ℕ) × (val b ≡ some d)

pub val_lt : (b d : ℕ) → val b ≡ some d → d < 62
unfolding val
val_lt b d h = ground arith

pub ch-val : (b d : ℕ) → val b ≡ some d → ch d ≡ b
unfolding val ch
ch-val b d h = ground arith

pub val-ch : (d : ℕ) → d < 62 → val (ch d) ≡ some d
unfolding val ch
val-ch d h = ground arith

pub ch_mono : (d e : ℕ) → d < e → e < 62 → ch d < ch e
unfolding ch
ch_mono d e h k = ground arith

pub val_mono : (a b x y : ℕ) → val a ≡ some x → val b ≡ some y → a < b → x < y
unfolding val
val_mono a b x y h k lt = ground arith

pub lt_of_val_lt : (a b x y : ℕ) → val a ≡ some x → val b ≡ some y → x < y → a < b
unfolding val
lt_of_val_lt a b x y h k lt = ground arith
