-- ===== src/Terms/Tests.antt =====
-- The terms tried for 109 and for 3, and those of a summer.
use citeproc_rs.Base.{◌%◌, true, false, [], ◌∷◌, ◌++◌, some, ◌≡◌, refl, if◌then◌else◌}
use citeproc_rs.Base.Iter.{drain}
use citeproc_rs.Terms.{
  feminine, from_number_for_selector, ordinal_fallback, selector_fallback, next_ordinal, to_number,
  from_number_long, with_genders, from_month_u32, month_long, form_of_month, month_or_season_term,
  season_of, season_term, long, season_02,
}
use citeproc_rs.Terms.Ordinals.{selector_fallback-from_number, mod100_chain, is_long_ordinal}

-- a term for the whole number 9 is tried for 109 as well
whole_109 : ordinal_fallback 4 (from_number_for_selector 109 false) ≡ some (mod100_chain 9)
unfolding ordinal_fallback from_number_for_selector drain next_ordinal
whole_109 = refl

summer : from_month_u32 14 month_long ≡ some (season_term season_02 long)
unfolding from_month_u32 form_of_month month_or_season_term season_of
summer = refl

selector_fallback-from_number_example :
    (selector_fallback 5 (from_number_for_selector 3 true, feminine)
      ≡ some (
          with_genders feminine
            ((if is_long_ordinal 3 true then from_number_long 3 ∷ [] else []) ++ mod100_chain 3)))
    × (to_number (from_number_for_selector 3 true) ≡ 3 % 100)
selector_fallback-from_number_example = selector_fallback-from_number 3 true feminine 0
