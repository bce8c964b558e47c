-- ===== src/Dates.antt =====
-- crates/io/src/date.rs: dates and date ranges, their orders, and their reading from number parts.
mod Tests
pub mod Order
pub mod Parts
use Prim.Native.String.{String}
use citeproc_rs.Base.{
  ℕ, Ordering, compare, Bool, true, false, not, ◌&&◌, ◌||◌, List, [], ◌∷◌, Option, none, some, ◌==◌,
  ltb, leb, then_with, get_elem?, if◌then◌else◌,
}
use citeproc_rs.Base.Int.{ℤ, pos, negsuc, compare_ℤ}

-- A month over 12 is a season; 0 stands for no month, and for no day.
pub record Date : Type 0 where
  pub year : ℤ
  pub month : ℕ
  pub day : ℕ
  pub circa : Bool

-- `Date::cmp`
unfoldable pub compare_date : Date → Date → Ordering
compare_date a b =
    let years = compare_ℤ a.year b.year in
    let cmp =
      if ltb a.month 13 && ltb b.month 13
      then then_with years (compare a.month b.month)
      else years in
    then_with cmp (compare a.day b.day)

unfoldable pub has_month : Date → Bool
has_month d = not (d.month == 0)

unfoldable pub has_day : Date → Bool
has_day d = not (d.day == 0)

unfoldable pub new : ℤ → ℕ → ℕ → Date
new y m d = record { year = y; month = m; day = d; circa = false }

unfoldable pub new_circa : ℤ → ℕ → ℕ → Date
unfolding new
new_circa y m d = record (new y m d) { circa = true }

-- `if v >= 1 && v <= limit { v as u32 } else { 0 }`
unfoldable pub in_range : ℕ → ℤ → ℕ
in_range limit (pos v) = if leb 1 v && leb v limit then v else 0
in_range limit (negsuc _) = 0

abbrev pub part_or_zero : Option ℤ → ℤ
part_or_zero none = pos 0
part_or_zero (some v) = v

-- `Date::from_parts`
unfoldable pub date_from_parts : List ℤ → Option Date
unfolding in_range
date_from_parts parts =
    let m = part_or_zero (get_elem? parts 1) in
    let d = part_or_zero (get_elem? parts 2) in
    elim (get_elem? parts 0) [
      | none ↦ none
      | some y ↦
          some (record { year = y; month = in_range 16 m; day = in_range 31 d; circa = false })
    ]

pub data DateOrRange : Type 0 where
  single : Date → DateOrRange
  range : Date → Date → DateOrRange
  literal : String → Bool → DateOrRange

-- `DateOrRange::partial_cmp`
unfoldable pub partial_cmp_range : DateOrRange → DateOrRange → Option Ordering
partial_cmp_range (literal _ _) _ = none
partial_cmp_range _ (literal _ _) = none
partial_cmp_range (single a) (single b) = some (compare_date a b)
partial_cmp_range (range a1 a2) (single b) =
    some (then_with (compare_date a1 b) (compare_date a2 b))
partial_cmp_range (single a) (range b1 b2) =
    some (then_with (compare_date a b1) (compare_date a b2))
partial_cmp_range (range a1 a2) (range b1 b2) =
    some (then_with (compare_date a1 b1) (compare_date a2 b2))

-- `set_circa`, and `with_circa`
unfoldable pub with_circa : DateOrRange → Bool → DateOrRange
with_circa (single d) c = single (record d { circa = c })
with_circa (range d1 d2) c = range (record d1 { circa = c }) (record d2 { circa = c })
with_circa (literal l _) c = literal l c

unfoldable pub is_uncertain_date : DateOrRange → Bool
is_uncertain_date (single d) = d.circa
is_uncertain_date (range d1 d2) = d1.circa || d2.circa
is_uncertain_date (literal _ c) = c

-- `DateOrRange::single`
unfoldable pub single_date : DateOrRange → Option Date
single_date (single d) = some d
single_date _ = none

unfoldable pub single_or_first : DateOrRange → Option Date
single_or_first (single d) = some d
single_or_first (range d _) = some d
single_or_first (literal _ _) = none

-- `DateOrRange::from_parts`
unfoldable pub range_from_parts : List (List ℤ) → Option DateOrRange
unfolding date_from_parts
range_from_parts [] = none
range_from_parts (p ∷ []) = elim (date_from_parts p) [ none ↦ none | some d ↦ some (single d) ]
range_from_parts (p ∷ q ∷ _) = elim (date_from_parts p) [
  | none ↦ none
  | some d1 ↦ elim (date_from_parts q) [ none ↦ none | some d2 ↦ some (range d1 d2) ]
]
