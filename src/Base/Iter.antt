-- ===== src/Base/Iter.antt =====
-- Iterators that hold the next item, and compute the one after it from it.
use Prim.Native.Nat.{ℕ, zero, suc}
use mathlib.Core.Option.{Option, none, some}
use mathlib.Core.List.{List, [], ◌∷◌}

-- An iterator is driven to its end: `none` when the fuel ends before the iterator does.
unfoldable pub drain {ℓ} : {A : Type ℓ} → (A → Option A) → ℕ → Option A → Option (List A)
drain next fuel none = some []
drain next zero (some l) = none
drain next (suc fuel) (some l) = elim (drain next fuel (next l)) [
  | none ↦ none
  | some ls ↦ some (l ∷ ls)
]
