-- ===== src/Dates/Tests.antt =====
-- Concrete dates.
use citeproc_rs.Base.{ℕ, Ordering, false, [], ◌∷◌, some, ◌≡◌, refl, arith}
use citeproc_rs.Base.Int.{pos, negsuc}
use citeproc_rs.Dates.{Date, compare_date, date_from_parts}
use citeproc_rs.Dates.Order.{compare_date_cycle}

abbrev date : ℕ → ℕ → ℕ → Date
date y m d = record { year = pos y; month = m; day = d; circa = false }

less_specific_first :
    (compare_date (date 2000 0 0) (date 2000 5 0) ≡ Ordering.lt)
    × (compare_date (date 2000 5 0) (date 2000 5 1) ≡ Ordering.lt)
    × (compare_date (record { year = negsuc 99; month = 0; day = 0; circa = false }) (date 50 0 0)
        ≡ Ordering.lt)
unfolding compare_date
less_specific_first = (refl, refl, refl)

bad_parts : date_from_parts (pos 1998 ∷ pos 17 ∷ pos 32 ∷ []) ≡ some (date 1998 0 0)
unfolding date_from_parts
bad_parts = refl

compare_date_cycle_example :
    (compare_date (date 2000 1 9) (date 2000 5 1) ≡ Ordering.lt)
    × (compare_date (date 2000 5 1) (date 2000 13 4) ≡ Ordering.lt)
    × (compare_date (date 2000 13 4) (date 2000 1 9) ≡ Ordering.lt)
compare_date_cycle_example =
    compare_date_cycle (date 2000 1 9) (date 2000 5 1) (date 2000 13 4) refl refl (omega arith)
      (omega arith) (omega arith) (omega arith) (omega arith)
