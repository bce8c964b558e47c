-- ===== src/Base/Sets.antt =====
-- Hash sets of numbers, as lists, and the stable sort by a key.
use citeproc_rs.Base.Tests.{◌==◌, leb, if◌then◌else◌}
use Prim.Native.Nat.{ℕ}
use mathlib.Core.Path.{◌≡◌}
use mathlib.Core.Bool.{Bool, false, ◌||◌}
use mathlib.Core.List.{List, [], ◌∷◌}

abbrev pub contains : ℕ → List ℕ → Bool
contains x [] = false
contains x (y ∷ ys) = (y == x) || contains x ys

-- `set.insert(x)`
abbrev pub insert_in : ℕ → List ℕ → List ℕ
insert_in x s = if contains x s then s else x ∷ s

-- one insertion for each number of a list
abbrev pub insert_all : List ℕ → List ℕ → List ℕ
insert_all [] s = s
insert_all (x ∷ xs) s = insert_all xs (insert_in x s)

abbrev pub intersection : List ℕ → List ℕ → List ℕ
intersection [] t = []
intersection (x ∷ xs) t = let rest = intersection xs t in if contains x t then x ∷ rest else rest

abbrev pub Distinct : List ℕ → Type 0
Distinct [] = Unit
Distinct (x ∷ xs) = (contains x xs ≡ false) × Distinct xs

-- `vec.sort_by_key(key)`: equal keys stay in their order
module _ (key : ℕ → ℕ) where
  abbrev pub sort_insert : ℕ → List ℕ → List ℕ
  sort_insert x [] = x ∷ []
  sort_insert x (y ∷ ys) =
      let rest = sort_insert x ys in if leb (key x) (key y) then x ∷ y ∷ ys else y ∷ rest

  abbrev pub sort_by_key : List ℕ → List ℕ
  sort_by_key [] = []
  sort_by_key (x ∷ xs) = sort_insert x (sort_by_key xs)
