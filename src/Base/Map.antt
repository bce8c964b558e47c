-- ===== src/Base/Map.antt =====
-- Hash maps with numbers for keys, as the functions that look a key up.
use Prim.Native.Nat.{ℕ}
use mathlib.Core.Option.{Option, none, some}
use citeproc_rs.Base.Tests.{◌==◌, if◌then◌else◌}

abbrev pub Map {ℓ} : Type ℓ → Type ℓ
Map V = ℕ → Option V

module _ {ℓ} {V : Type ℓ} where
  abbrev pub empty : Map V
  empty k = none

  -- `map.insert(k, v)`
  abbrev pub insert : ℕ → V → Map V → Map V
  insert k v m j = if k == j then some v else m j
