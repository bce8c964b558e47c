-- ===== src/GroupVars/Tests.antt =====
-- Groups of concrete children.
use citeproc_rs.Base.{List, [], ◌∷◌, ◌≡◌, refl, any}
use citeproc_rs.GroupVars.{
  GroupVars, plain, missing, unresolved, unresolved_missing, neighbour, overall,
}
use citeproc_rs.GroupVars.Summary.{
  overall-verdict, verdict, is_important, saw_missing, saw_unresolved,
}

abbrev label_only : List GroupVars
label_only = plain ∷ missing ∷ []

overall-label_only : overall label_only ≡ missing
unfolding overall neighbour
overall-label_only = refl

overall_unresolved : overall (missing ∷ unresolved ∷ []) ≡ unresolved_missing
unfolding overall neighbour
overall_unresolved = refl

overall-verdict_example :
    overall label_only
    ≡ verdict
        (any is_important label_only)
        (any saw_missing label_only)
        (any saw_unresolved label_only)
overall-verdict_example = overall-verdict label_only
