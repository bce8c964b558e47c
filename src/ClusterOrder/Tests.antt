-- ===== src/ClusterOrder/Tests.antt =====
-- Orders of three clusters.
use citeproc_rs.Base.{
  arith, ℕ, true, List, [], ◌∷◌, map, none, some, ◌≡◌, refl, is_some, if◌then◌else◌,
}
use citeproc_rs.Base.Map.{empty}
use citeproc_rs.ClusterNumber.{note, in_text, multi}
use citeproc_rs.ClusterOrder.{ClusterPosition, Inputs, set_cluster_order, place}
use citeproc_rs.ClusterOrder.Monotone.{first_decrease, set_cluster_order-outcome}
use citeproc_rs.ClusterOrder.Numbering.{set_cluster_order-apart}

abbrev pieces : List ClusterPosition
pieces =
    record { id = 7; note_of = some 4 }
    ∷ record { id = 8; note_of = none }
    ∷ record { id = 9; note_of = some 4 }
    ∷ []

abbrev backwards : List ClusterPosition
backwards = record { id = 7; note_of = some 4 } ∷ record { id = 9; note_of = some 3 } ∷ []

abbrev blank : Inputs
blank = record { cluster_note_number = empty; cluster_ids = [] }

numbered :
    ((set_cluster_order pieces blank).0.cluster_note_number 7 ≡ some (note (multi 4 0)))
    × ((set_cluster_order pieces blank).0.cluster_note_number 8 ≡ some (in_text 1))
    × ((set_cluster_order pieces blank).0.cluster_note_number 9 ≡ some (note (multi 4 1)))
unfolding set_cluster_order place
numbered = (refl, refl, refl)

-- The failing call has written the number of the first cluster all the same.
half_written :
    ((set_cluster_order backwards blank).1 ≡ some 3)
    × ((set_cluster_order backwards blank).0.cluster_note_number 7 ≡ some (note (multi 4 0)))
    × ((set_cluster_order backwards blank).0.cluster_ids ≡ [])
unfolding set_cluster_order place
half_written = (refl, refl, refl)

set_cluster_order-outcome_example :
    ((set_cluster_order backwards blank).1 ≡ first_decrease none backwards)
    × ((set_cluster_order backwards blank).0.cluster_ids ≡ (
        if is_some (first_decrease none backwards)
        then blank.cluster_ids
        else map (λ p. p.id) backwards))
set_cluster_order-outcome_example = set_cluster_order-outcome backwards blank

set_cluster_order-apart_example :
    (is_some ((set_cluster_order pieces blank).0.cluster_note_number 9) ≡ true) × (◌≡◌ {A = ℕ} 9 9)
set_cluster_order-apart_example =
    set_cluster_order-apart pieces blank (omega arith) (unfold set_cluster_order place in refl) 9 9
      (unfold set_cluster_order place in refl) (unfold set_cluster_order place in refl) refl
