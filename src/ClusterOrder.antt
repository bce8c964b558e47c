-- ===== src/ClusterOrder.antt =====
-- `set_cluster_order_inner` of crates/citeproc/src/processor.rs: the caller gives the clusters in
-- document order, and every one gets its number.
mod Tests
pub mod Monotone
pub mod Numbering
use citeproc_rs.Base.{
  ℕ, ◌+◌, Bool, true, false, List, [], ◌∷◌, ◌++◌, Option, none, some, ◌≡◌, ◌⊎◌, inl, inr, refl,
  ◌==◌, ltb, any, if◌then◌else◌, ◌%◌, ◌^◌,
}
use citeproc_rs.Base.Map.{Map, insert}
use citeproc_rs.ClusterNumber.{ClusterNumber, note, in_text, multi}

pub record ClusterPosition : Type 0 where
  pub id : ℕ
  pub note_of : Option ℕ

-- the database inputs that the call writes
pub record Inputs : Type 0 where
  pub cluster_note_number : Map ClusterNumber
  pub cluster_ids : List ℕ

-- the local variables, whose two counters are `u32`s; `mods` holds the calls of the callback that logs the changes
pub record Order : Type 0 where
  pub numbers : Map ClusterNumber
  pub ids : List ℕ
  pub intext_number : ℕ
  pub this_note : Option (ℕ × ℕ)
  pub mods : List (ℕ × Option ClusterNumber)

-- `NonMonotonicNoteNumber`
pub data Result : Type 0 where
  ok : Order → Result
  non_monotonic : ℕ → Order → Result

pub Result-cases :
    (r : Result)
    → ((st : Order) × (r ≡ ok st)) ⊎ ((n : ℕ) × (st : Order) × (r ≡ non_monotonic n st))
Result-cases (ok st) = inl (st, refl)
Result-cases (non_monotonic n st) = inr (n, st, refl)

abbrev pub start : Map ClusterNumber → Order
start numbers = record {
  numbers = numbers;
  ids = [];
  intext_number = 1;
  this_note = none;
  mods = [];
}

abbrev pub log_change : List ℕ → ℕ → Order → Order
log_change old id st =
    if any (λ j. j == id) old then record st { mods = st.mods ++ (id, st.numbers id) ∷ [] } else st

-- a write of the cluster's number, and the push onto the new order
abbrev pub assign : ℕ → ClusterNumber → Order → Order
assign id n st = record st { numbers = insert id n st.numbers; ids = st.ids ++ id ∷ [] }

-- a piece that is a note with number `nn`, by the note before
unfoldable pub place_note : List ℕ → ℕ → ℕ → Option (ℕ × ℕ) → Order → Result
place_note old id nn none st =
    ok (record (assign id (note (multi nn 0)) st) { this_note = some (nn, 1) })
place_note old id nn (some (num, index)) st =
    if ltb nn num
    then non_monotonic nn st
    else if nn == num
    then ok (record (assign id (note (multi num index)) (log_change old id st)) {
      this_note = some (num, (index + 1) % 2 ^ 32);
    })
    else ok
        (record (assign id (note (multi nn 0)) (log_change old id st)) { this_note = some (nn, 1) })

unfoldable pub place : List ℕ → ClusterPosition → Order → Result
unfolding place_note
place old piece st = elim piece.note_of [
  | some nn ↦ place_note old piece.id nn st.this_note st
  | none ↦ ok (record (assign piece.id (in_text st.intext_number) st) {
    intext_number = (st.intext_number + 1) % 2 ^ 32;
  })
]

-- the loop over the pieces
unfoldable pub place_all : List ℕ → List ClusterPosition → Order → Result
place_all old [] st = ok st
place_all old (p ∷ ps) st = elim (place old p st) [
  | ok st' ↦ place_all old ps st'
  | non_monotonic n st' ↦ non_monotonic n st'
]

-- An error returns early: the numbers that were written stay, and `cluster_ids` is not replaced.
unfoldable pub finish : Inputs → Result → Inputs × Option ℕ
finish db (ok st) = (record { cluster_note_number = st.numbers; cluster_ids = st.ids }, none)
finish db (non_monotonic n st) = (record db { cluster_note_number = st.numbers }, some n)

unfoldable pub set_cluster_order : List ClusterPosition → Inputs → Inputs × Option ℕ
unfolding place_all finish
set_cluster_order ps db = finish db (place_all db.cluster_ids ps (start db.cluster_note_number))
