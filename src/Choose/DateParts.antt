-- ===== src/Choose/DateParts.antt =====
-- The conditions on the parts of a date.
use citeproc_rs.Base.{ℕ, Bool, true, false, not, ◌&&◌, ◌||◌, Option, none, some, ◌≡◌, arith}
use citeproc_rs.Dates.{DateOrRange, literal}
use citeproc_rs.Choose.{
  CondChecker, test_cond, year_only, month_or_season, any_day, has_year_only, has_month_or_season,
  has_day,
}

abbrev pub is_dated : Option DateOrRange → Bool
is_dated none = false
is_dated (some (literal _ _)) = false
is_dated (some _) = true

-- With the feature on, a variable has a year only exactly when it is a date or a range and neither
-- the condition on its month or season nor the one on its day holds; and where one of those two
-- holds, it is a date or a range.
test_cond-date_parts :
    (ck : CondChecker) (count v : ℕ)
    → ck.condition_date_parts ≡ true
    → (test_cond ck count (has_year_only v)
        ≡ some (
            is_dated (ck.get_date v)
            && not (month_or_season (ck.get_date v) || any_day (ck.get_date v))))
      × (test_cond ck count (has_month_or_season v)
          ≡ some (is_dated (ck.get_date v) && month_or_season (ck.get_date v)))
      × (test_cond ck count (has_day v)
          ≡ some (is_dated (ck.get_date v) && any_day (ck.get_date v)))
unfolding test_cond year_only month_or_season any_day
test_cond-date_parts ck count v on = ground arith
