-- ===== src/ClusterNumber/Tests.antt =====
-- Concrete places in a document.
use citeproc_rs.Base.{Ordering, some, ◌≡◌, refl}
use citeproc_rs.ClusterNumber.{note, single, multi, partial_cmp}

-- Every note that is one cluster sorts before every part of a note, whatever the numbers.
single_before_multi : partial_cmp (note (single 9)) (note (multi 1 0)) ≡ some Ordering.lt
unfolding partial_cmp
single_before_multi = refl
