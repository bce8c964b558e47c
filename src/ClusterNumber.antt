-- ===== src/ClusterNumber.antt =====
-- crates/db/src/cluster.rs: where a cluster stands in the document, and its two orders. The `lt` on
-- which a sort by key relies goes through `partial_cmp`, the derived `cmp` does not.
mod Tests
pub mod Order
use citeproc_rs.Base.{
  ℕ, ◌+◌, ◌-◌, ◌%◌, ◌^◌, Ordering, compare, Bool, true, false, ◌&&◌, Option, none, some, ◌==◌,
  then_with, is_equal, if◌then◌else◌,
}

pub data IntraNote : Type 0 where
  single : ℕ → IntraNote
  multi : ℕ → ℕ → IntraNote

abbrev pub note_number : IntraNote → ℕ
note_number (single x) = x
note_number (multi x _) = x

-- the derived `PartialEq`
unfoldable pub same_note : IntraNote → IntraNote → Bool
same_note (single a) (single b) = a == b
same_note (multi a b) (multi c d) = a == c && b == d
same_note _ _ = false

-- `IntraNote::partial_cmp`
unfoldable pub partial_cmp_note : IntraNote → IntraNote → Option Ordering
partial_cmp_note (single _) (multi _ _) = some Ordering.lt
partial_cmp_note (multi _ _) (single _) = some Ordering.gt
partial_cmp_note (single a) (single b) = some (compare a b)
partial_cmp_note (multi a b) (multi c d) =
    let e = compare a c in if is_equal e then some (compare b d) else some e

-- the derived `IntraNote::cmp`: by constructor, then by the fields in order
unfoldable pub cmp_note : IntraNote → IntraNote → Ordering
cmp_note (single a) (single b) = compare a b
cmp_note (single _) (multi _ _) = Ordering.lt
cmp_note (multi _ _) (single _) = Ordering.gt
cmp_note (multi a b) (multi c d) = then_with (compare a c) (compare b d)

pub data ClusterNumber : Type 0 where
  outside_flow : ClusterNumber
  in_text : ℕ → ClusterNumber
  note : IntraNote → ClusterNumber

-- `a - b` at u32, where it wraps
abbrev pub wrapping_sub : ℕ → ℕ → ℕ
wrapping_sub a b = (a + 2 ^ 32 - b) % 2 ^ 32

unfoldable pub sub_note : ClusterNumber → IntraNote → Option ℕ
sub_note (note (single a)) (single b) = some (wrapping_sub a b)
sub_note (note (single a)) (multi b _) = some (wrapping_sub a b)
sub_note (note (multi a _)) (single b) = some (wrapping_sub a b)
sub_note (note (multi a _)) (multi b _) = some (wrapping_sub a b)
sub_note _ _ = none

-- `ClusterNumber::partial_cmp`
unfoldable pub partial_cmp : ClusterNumber → ClusterNumber → Option Ordering
unfolding partial_cmp_note
partial_cmp outside_flow _ = none
partial_cmp _ outside_flow = none
partial_cmp (in_text _) (note _) = some Ordering.lt
partial_cmp (note _) (in_text _) = some Ordering.gt
partial_cmp (in_text a) (in_text b) = some (compare a b)
partial_cmp (note a) (note b) = partial_cmp_note a b

-- the derived `ClusterNumber::cmp`
unfoldable pub cmp : ClusterNumber → ClusterNumber → Ordering
unfolding cmp_note
cmp outside_flow outside_flow = Ordering.eq
cmp outside_flow _ = Ordering.lt
cmp _ outside_flow = Ordering.gt
cmp (in_text a) (in_text b) = compare a b
cmp (in_text _) (note _) = Ordering.lt
cmp (note _) (in_text _) = Ordering.gt
cmp (note a) (note b) = cmp_note a b
