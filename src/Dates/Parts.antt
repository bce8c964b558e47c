-- ===== src/Dates/Parts.antt =====
-- Dates read from CSL-JSON date-parts.
use citeproc_rs.Base.{◌≤◌, false, List, [], ◌∷◌, some, ◌≡◌, arith, get_elem?}
use citeproc_rs.Base.Int.{ℤ, pos}
use citeproc_rs.Dates.{Date, date_from_parts, in_range, part_or_zero}

-- Parts give a date exactly when there is a first one, which is the year; the month is at most 16,
-- the day at most 31, a part that is missing or out of range is 0, and any other is kept.
date_from_parts_lem :
    (parts : List ℤ) (d : Date)
    → date_from_parts parts ≡ some d
    → (get_elem? parts 0 ≡ some d.year)
      × (d.month ≤ 16)
      × (d.day ≤ 31)
      × (d.month ≡ in_range 16 (part_or_zero (get_elem? parts 1)))
      × (d.day ≡ in_range 31 (part_or_zero (get_elem? parts 2)))
      × (d.circa ≡ false)
unfolding date_from_parts
date_from_parts_lem parts d h = ground arith

-- The parts of a date with a month up to 16 and a day up to 31 are read back as the date.
date_from_parts-date :
    (d : Date)
    → d.month ≤ 16
    → d.day ≤ 31
    → d.circa ≡ false
    → date_from_parts (d.year ∷ pos d.month ∷ pos d.day ∷ []) ≡ some d
unfolding date_from_parts
date_from_parts-date d m n c = ground arith
