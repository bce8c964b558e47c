-- ===== src/Sorting/Ranges.antt =====
-- Date ranges as natural_sort compares them.
use citeproc_rs.Base.{Option, none, some, [], ◌∷◌, Ordering, then_with, ◌≡◌, refl, ap, ◌∙◌, arith}
use citeproc_rs.Base.Int.{ℤ, pos, negsuc}
use citeproc_rs.Base.Texts.{Text}
use citeproc_rs.Sorting.Natural.{CmpDate, cmp_year, cmp_text, cmp_date, single, range, cmp_range}

cmp_year-same : (y : Option ℤ) → cmp_year y y ≡ Ordering.eq
unfolding cmp_year
cmp_year-same none = refl
cmp_year-same (some (pos n)) = ground arith
cmp_year-same (some (negsuc n)) = ground arith

cmp_text-same : (t : Text) → cmp_text t t ≡ Ordering.eq
unfolding cmp_text
cmp_text-same [] = refl
cmp_text-same (c ∷ t) = ground (arith, cmp_text-same t)

cmp_date-same : (a : CmpDate) → cmp_date a a ≡ Ordering.eq
unfolding cmp_date
cmp_date-same a =
    ap (λ o. then_with o (cmp_text a.rest a.rest)) (cmp_year-same a.year) ∙ cmp_text-same a.rest

-- A single date is equal to every range that starts with it, whereas two ranges that start with it
-- are ordered by their ends: equality of dates and ranges is not transitive, and a range is not put
-- after the single date.
cmp_range-single_start :
    (a b c : CmpDate)
    → (cmp_range (range a b) (single a) ≡ Ordering.eq)
      × ((cmp_range (single a) (range a c) ≡ Ordering.eq)
          × (cmp_range (range a b) (range a c) ≡ cmp_date b c))
unfolding cmp_range
cmp_range-single_start a b c =
    (cmp_date-same a, (cmp_date-same a, ap (λ o. then_with o (cmp_date b c)) (cmp_date-same a)))
