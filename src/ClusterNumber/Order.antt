-- ===== src/ClusterNumber/Order.antt =====
-- How the two orders of cluster numbers agree, and where they do not.
use citeproc_rs.Base.{
  ◌-◌, ◌^◌, ◌≤◌, ◌<◌, Ordering, ◌≡◌, Bool, true, false, ◌||◌, none, some, arith, if◌then◌else◌,
}
use citeproc_rs.ClusterNumber.{
  IntraNote, note_number, partial_cmp_note, cmp_note, ClusterNumber, outside_flow, note, sub_note,
  partial_cmp, cmp,
}

abbrev pub is_outside : ClusterNumber → Bool
is_outside outside_flow = true
is_outside _ = false

partial_cmp_note-eq : (a b : IntraNote) → partial_cmp_note a b ≡ some (cmp_note a b)
unfolding partial_cmp_note cmp_note
partial_cmp_note-eq a b = ground arith

-- The order that sorting uses is the derived total order, except that a cluster outside the flow
-- compares with nothing, itself included.
partial_cmp-cmp :
    (a b : ClusterNumber)
    → partial_cmp a b ≡ (if is_outside a || is_outside b then none else some (cmp a b))
unfolding partial_cmp cmp
partial_cmp-cmp outside_flow b = ground arith
partial_cmp-cmp (note a) (note b) = partial_cmp_note-eq a b
partial_cmp-cmp _ b = ground arith

-- Being unordered is not transitive: between any two notes in order, a cluster outside the flow
-- is neither before nor after either of them.
partial_cmp-outside_flow :
    (a b : ClusterNumber)
    → partial_cmp a b ≡ some Ordering.lt
    → (partial_cmp a outside_flow ≡ none)
      × (partial_cmp outside_flow b ≡ none)
      × (cmp outside_flow a ≡ Ordering.lt)
      × (cmp outside_flow b ≡ Ordering.lt)
unfolding partial_cmp cmp
partial_cmp-outside_flow a b h = ground arith

-- The distance from a note back to one whose number is not larger is the difference of the two
-- note numbers, whichever of the two are parts of a note, and nothing wraps.
pub sub_note-distance :
    (a b : IntraNote)
    → note_number b ≤ note_number a
    → note_number a < 2 ^ 32
    → sub_note (note a) b ≡ some (note_number a - note_number b)
unfolding sub_note
sub_note-distance a b h k = ground arith
