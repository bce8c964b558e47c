-- ===== src/Sorting/Bibliography.antt =====
-- `sorted_refs` as a whole, with a sort that rearranges its input.
use citeproc_rs.Base.{ℕ, Bool, true, Option, some, List, Ordering, is_some, ◌≡◌}
use citeproc_rs.Base.Counts.{Rearranged}
use citeproc_rs.Base.Map.{Map}
use citeproc_rs.YearSuffixes.{BibNumber}
use citeproc_rs.Sorting.{cmp_keys}
use citeproc_rs.Sorting.Keys.{SortKey}
use citeproc_rs.Sorting.Refs.{Sorter, Database, Preorder, preorder, bib_key}

-- A sort whose comparisons never panic returns its input in some order.
abbrev pub Rearranges : Sorter → Type 0
Rearranges sort_by =
    (cmp : ℕ → ℕ → Option Ordering) (xs : List ℕ)
    → ((a b : ℕ) → is_some (cmp a b) ≡ true)
    → (ys : List ℕ) × ((sort_by cmp xs ≡ some ys) × Rearranged xs ys)

module _ {V N : Type 0} (db : Database V N) where
  -- the preorder of the database's references
  unfoldable pub preorder_of : Preorder
  unfolding preorder
  preorder_of = preorder db.cited_keys db.disamb_participants

  -- No comparison of two references panics, whatever their numbers.
  unfoldable pub Comparable : Type 0
  unfolding bib_key cmp_keys
  Comparable =
      (keys : List SortKey) (max_cnum : ℕ) (numbers : Map BibNumber) (a b : ℕ)
      → is_some (
          cmp_keys db.comparison (bib_key db keys max_cnum numbers a)
            (bib_key db keys max_cnum numbers b))
        ≡ true

  -- the references in their order, from the preorder
  Ordered : List ℕ → Option (List ℕ × Bool) → Type 0
  Ordered pre o = (ys : List ℕ) × ((b : Bool) × ((o ≡ some (ys, b)) × Rearranged pre ys))
