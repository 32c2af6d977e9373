-- ===== src/Base/Maps.antt =====
-- Hash maps as functions into `Option`: `get` is application. The test on keys is a parameter.
use mathlib.Core.Option.{Option, none, some}
use Prim.Native.Nat.{ℕ}
use nodalmerge.Base.Tests.{◌==◌, if◌then◌else◌}
use nodalmerge.Base.ByteOrder.{Bytes, bytes_eq}

abbrev pub StringMap {ℓ} : Type ℓ → Type ℓ
StringMap V = Bytes → Option V

abbrev pub IdMap {ℓ} : Type ℓ → Type ℓ
IdMap V = ℕ → Option V

module _ {ℓ} {V : Type ℓ} where
  abbrev pub empty_map {κ} : {K : Type κ} → K → Option V
  empty_map k = none

  -- `insert` on a map with string keys
  abbrev pub put_str : Bytes → V → StringMap V → StringMap V
  put_str k v m j = if bytes_eq k j then some v else m j

  -- `insert` on a map with fixed-size ids for keys
  abbrev pub put_id : ℕ → V → IdMap V → IdMap V
  put_id k v m j = if k == j then some v else m j

  -- `or_default` and `unwrap_or`
  abbrev pub or_else : Option V → V → V
  or_else none d = d
  or_else (some v) d = v
