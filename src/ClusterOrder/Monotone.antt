-- ===== src/ClusterOrder/Monotone.antt =====
-- Which orders of clusters are accepted, and what the call leaves behind.
use mathlib.Core.List.{append_assoc, append-nil}
use citeproc_rs.Base.{
  ℕ, List, [], ◌∷◌, ◌++◌, map, Option, none, some, ◌≡◌, refl, arith, inl, inr, ltb, is_some,
  if◌then◌else◌,
}
use citeproc_rs.ClusterOrder.{
  ClusterPosition, Inputs, Order, Result, Result-cases, ok, non_monotonic, place, place_all,
  set_cluster_order, start,
}

-- the first note number of a list that is smaller than the note number before it
abbrev pub first_decrease : Option ℕ → List ClusterPosition → Option ℕ
first_decrease last [] = none
first_decrease last (p ∷ ps) = elim p.note_of [
  | none ↦ first_decrease last ps
  | some nn ↦
      let rest = first_decrease (some nn) ps in
      elim last [ none ↦ rest | some m ↦ if ltb nn m then some nn else rest ]
]

abbrev last_number : Order → Option ℕ
last_number st = elim st.this_note [ none ↦ none | some (n, i) ↦ some n ]

abbrev outcome : Result → Option ℕ
outcome (ok st) = none
outcome (non_monotonic n st) = some n

abbrev ids_of : Result → List ℕ → List ℕ
ids_of (ok st) other = st.ids
ids_of (non_monotonic n st) other = other

-- the last note number after a piece
abbrev next_last : Option ℕ → ClusterPosition → Option ℕ
next_last last p = elim p.note_of [ none ↦ last | some nn ↦ some nn ]

place-ok :
    (old : List ℕ) (p : ClusterPosition) (st st' : Order)
    → place old p st ≡ ok st'
    → (first_decrease (last_number st) (p ∷ []) ≡ none)
      × (last_number st' ≡ next_last (last_number st) p)
      × (st'.ids ≡ st.ids ++ p.id ∷ [])
unfolding place
place-ok old p st st' h = ground arith

place-non_monotonic :
    (old : List ℕ) (p : ClusterPosition) (st st' : Order) (n : ℕ)
    → place old p st ≡ non_monotonic n st'
    → first_decrease (last_number st) (p ∷ []) ≡ some n
unfolding place
place-non_monotonic old p st st' n h = ground arith

first_decrease-cons :
    (last : Option ℕ) (p : ClusterPosition) (ps : List ClusterPosition)
    → first_decrease last (p ∷ ps) ≡ elim (first_decrease last (p ∷ [])) [
      | none ↦ first_decrease (next_last last p) ps
      | some n ↦ some n
    ]
first_decrease-cons last p ps = ground arith

place_all-outcome :
    (old : List ℕ) (ps : List ClusterPosition) (st : Order)
    → outcome (place_all old ps st) ≡ first_decrease (last_number st) ps
unfolding place_all
place_all-outcome old [] st = refl
place_all-outcome old (p ∷ ps) st = elim (Result-cases (place old p st)) [
  | inl (st', e) ↦ ground (
    arith,
    place-ok old p st st' e,
    first_decrease-cons (last_number st) p ps,
    place_all-outcome old ps st',
  )
  | inr (n, st', e) ↦
      ground
        (arith, place-non_monotonic old p st st' n e, first_decrease-cons (last_number st) p ps)
]

pub place_all-ids :
    (old : List ℕ) (ps : List ClusterPosition) (st st' : Order)
    → place_all old ps st ≡ ok st'
    → st'.ids ≡ st.ids ++ map (λ p. p.id) ps
unfolding place_all
place_all-ids old [] st st' h = ground (arith, append-nil st.ids)
place_all-ids old (p ∷ ps) st st' h = elim (Result-cases (place old p st)) [
  | inl (next, e) ↦
      let rest = place_all-ids old ps next st' (rw (e, place_all) at h) in
      ground (
        arith,
        rest,
        (place-ok old p st next e).2,
        append_assoc st.ids (p.id ∷ []) (map (λ p'. p'.id) ps),
      )
  | inr (n, next, e) ↦ ground arith
]

-- The call fails exactly when some note number is smaller than the note number before it, and
-- reports the first such number. On success the clusters of the document are those given, in
-- their order; on failure they are the old ones.
pub set_cluster_order-outcome :
    (ps : List ClusterPosition) (db : Inputs)
    → ((set_cluster_order ps db).1 ≡ first_decrease none ps)
      × ((set_cluster_order ps db).0.cluster_ids
          ≡ (if is_some (first_decrease none ps) then db.cluster_ids else map (λ p. p.id) ps))
unfolding set_cluster_order
set_cluster_order-outcome ps db =
    let fresh = start db.cluster_note_number in
    elim (Result-cases (place_all db.cluster_ids ps fresh)) [
      | inl (st, e) ↦ ground (
        arith,
        place_all-outcome db.cluster_ids ps fresh,
        place_all-ids db.cluster_ids ps fresh st e,
      )
      | inr (n, st, e) ↦ ground (arith, place_all-outcome db.cluster_ids ps fresh)
    ]
