-- ===== src/Sorting.antt =====
-- crates/proc/src/sort.rs: the items that references and cites are sorted by, and their order. An item
-- with no value comes after those with one, in either direction.
pub mod Natural
pub mod Keys
pub mod Refs
pub mod Document
mod Ranges
pub mod Members
pub mod Numbering
pub mod Bibliography
pub mod Demotion
pub mod Matching
mod Tests
use citeproc_rs.Base.{
  ℕ, Bool, true, false, not, ◌&&◌, Option, none, some, List, [], ◌∷◌, Ordering, compare,
  reverse_ordering, is_equal, if◌then◌else◌, length, ◌==◌,
}
use citeproc_rs.Dates.{DateOrRange, partial_cmp_range}
use citeproc_rs.YearSuffixes.{BibNumber, cited, uncited}

-- `BibNumber::cited_only`
unfoldable pub cited_only : BibNumber → Option ℕ
cited_only (cited b) = some b
cited_only (uncited _) = none

pub data SortDirection : Type 0 where
  ascending descending : SortDirection

-- texts of macros, texts of variables, and numbers are of any types with an order
pub data SortValue (M : Type 0) (V : Type 0) (N : Type 0) : Type 0 where
  macro_value : Option M → SortValue M V N
  cnum_value : Option ℕ → SortValue M V N
  ordinary_value : Option V → SortValue M V N
  number_value : Option N → SortValue M V N
  names_value : Option (List V) → SortValue M V N
  date_value : Option DateOrRange → SortValue M V N

pub record SortItem (M : Type 0) (V : Type 0) (N : Type 0) : Type 0 where
  pub direction : Option SortDirection
  pub value : SortValue M V N

pub record Demoting (M : Type 0) (V : Type 0) (N : Type 0) : Type 0 where
  pub fake_cnum : Option ℕ
  pub items : List (SortItem M V N)

-- `partial_cmp` of the values
pub record Comparison (M : Type 0) (V : Type 0) (N : Type 0) : Type 0 where
  pub cmp_macro : M → M → Option Ordering
  pub cmp_text : V → V → Option Ordering
  pub cmp_number : N → N → Option Ordering

pub data Demoted : Type 0 where
  left right : Demoted

-- `unwrap_or(Ordering::Equal)`
unfoldable pub or_equal : Option Ordering → Ordering
or_equal none = Ordering.eq
or_equal (some o) = o

unfoldable pub compare_demoting_none :
    {T : Type 0} → (T → T → Option Ordering) → Option T → Option T → Ordering × Option Demoted
unfolding or_equal
compare_demoting_none cmp none none = (Ordering.eq, none)
compare_demoting_none cmp none (some _) = (Ordering.gt, some left)
compare_demoting_none cmp (some _) none = (Ordering.lt, some right)
compare_demoting_none cmp (some a) (some b) = (or_equal (cmp a b), none)

unfoldable pub directed : Option SortDirection → Ordering × Option Demoted → Ordering
directed d (_, some left) = Ordering.gt
directed d (_, some right) = Ordering.lt
directed (some descending) (o, none) = reverse_ordering o
directed _ (o, none) = o

-- the order of two items: none where an assertion fails
unfoldable pub answer :
    Bool → Option SortDirection → Option (Ordering × Option Demoted) → Option Ordering
unfolding directed
answer false d o = none
answer true d none = none
answer true d (some o) = some (directed d o)

-- the first order that is not `Equal`
unfoldable pub unless_equal : Option Ordering → Option Ordering → Option Ordering
unless_equal none rest = none
unless_equal (some Ordering.eq) rest = rest
unless_equal (some Ordering.lt) rest = some Ordering.lt
unless_equal (some Ordering.gt) rest = some Ordering.gt

-- `PartialOrd` of a vector
unfoldable pub cmp_list :
    {T : Type 0} → (T → T → Option Ordering) → List T → List T → Option Ordering
unfolding unless_equal
cmp_list cmp [] [] = some Ordering.eq
cmp_list cmp [] (_ ∷ _) = some Ordering.lt
cmp_list cmp (_ ∷ _) [] = some Ordering.gt
cmp_list cmp (x ∷ xs) (y ∷ ys) = let rest = cmp_list cmp xs ys in unless_equal (cmp x y) rest

-- `assert_eq!` of two directions
unfoldable pub same_direction : Option SortDirection → Option SortDirection → Bool
same_direction none none = true
same_direction (some ascending) (some ascending) = true
same_direction (some descending) (some descending) = true
same_direction _ _ = false

module _ {M V N : Type 0} where
  -- the comparison of two values of one kind; none where the code has `unreachable!`
  unfoldable pub cmp_values :
      Comparison M V N → SortValue M V N → SortValue M V N → Option (Ordering × Option Demoted)
  unfolding compare_demoting_none cmp_list
  cmp_values c (cnum_value a) (cnum_value b) =
      some (compare_demoting_none (λ m n. some (compare m n)) a b)
  cmp_values c (macro_value a) (macro_value b) = some (compare_demoting_none c.cmp_macro a b)
  cmp_values c (ordinary_value a) (ordinary_value b) = some (compare_demoting_none c.cmp_text a b)
  cmp_values c (number_value a) (number_value b) = some (compare_demoting_none c.cmp_number a b)
  cmp_values c (names_value a) (names_value b) =
      some (compare_demoting_none (cmp_list c.cmp_text) a b)
  cmp_values c (date_value a) (date_value b) = some (compare_demoting_none partial_cmp_range a b)
  cmp_values c _ _ = none

  unfoldable pub cmp_item : Comparison M V N → SortItem M V N → SortItem M V N → Option Ordering
  unfolding same_direction cmp_values answer
  cmp_item c a b =
      answer (same_direction a.direction b.direction) a.direction (cmp_values c a.value b.value)

  -- the loop of `Demoting::cmp`, over the zipped items
  unfoldable pub cmp_items :
      Comparison M V N → List (SortItem M V N) → List (SortItem M V N) → Option Ordering
  unfolding cmp_item unless_equal
  cmp_items c (a ∷ xs) (b ∷ ys) = let rest = cmp_items c xs ys in unless_equal (cmp_item c a b) rest
  cmp_items c _ _ = some Ordering.eq

  -- `Demoting::cmp`: none where an assertion fails
  unfoldable pub cmp_demoting : Comparison M V N → Demoting M V N → Demoting M V N → Option Ordering
  unfolding cmp_items
  cmp_demoting c a b =
      if length a.items == length b.items then cmp_items c a.items b.items else none

  -- `cmp` of two optional keys: no key comes first
  unfoldable pub cmp_keys :
      Comparison M V N → Option (Demoting M V N) → Option (Demoting M V N) → Option Ordering
  unfolding cmp_demoting
  cmp_keys c none none = some Ordering.eq
  cmp_keys c none (some _) = some Ordering.lt
  cmp_keys c (some _) none = some Ordering.gt
  cmp_keys c (some a) (some b) = cmp_demoting c a b
