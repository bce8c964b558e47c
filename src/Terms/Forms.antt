-- ===== src/Terms/Forms.antt =====
-- The forms that stand in for a form, and the terms of months and seasons.
use citeproc_rs.Base.{
  ℕ, suc, true, ◌&&◌, List, [], ◌∷◌, Option, none, some, ◌≡◌, arith, leb, if◌then◌else◌, is_some,
  map,
}
use citeproc_rs.Base.Iter.{drain}
use citeproc_rs.Terms.{
  TermForm, long, short, symbol, next_form, GenderedTermSelector, number_term, locator_term,
  month_term, season_term, gendered_fallback, normalise, from_month_u32, MonthForm, month_long,
  month_short, form_of_month, month_or_season_term, month_of, season_of, numeric,
  numeric_leading_zeros, month_01, month_02, month_03, month_04, month_05, month_06, month_07,
  month_08, month_09, month_10, month_11, month_12, season_01, season_02, season_03, season_04,
}

-- the number of a month's or a season's term
abbrev pub number_of : GenderedTermSelector → ℕ
number_of (month_term m form) = elim m [
  | month_01 ↦ 1
  | month_02 ↦ 2
  | month_03 ↦ 3
  | month_04 ↦ 4
  | month_05 ↦ 5
  | month_06 ↦ 6
  | month_07 ↦ 7
  | month_08 ↦ 8
  | month_09 ↦ 9
  | month_10 ↦ 10
  | month_11 ↦ 11
  | month_12 ↦ 12
]
number_of (season_term s form) = elim s [
  | season_01 ↦ 13
  | season_02 ↦ 14
  | season_03 ↦ 15
  | season_04 ↦ 16
]
number_of _ = 0

abbrev pub form_of : GenderedTermSelector → TermForm
form_of (number_term _ form) = form
form_of (locator_term _ form) = form
form_of (month_term _ form) = form
form_of (season_term _ form) = form

abbrev pub with_form : GenderedTermSelector → TermForm → GenderedTermSelector
with_form (number_term v _) form = number_term v form
with_form (locator_term v _) form = locator_term v form
with_form (month_term v _) form = month_term v form
with_form (season_term v _) form = season_term v form

abbrev pub forms_from : TermForm → List TermForm
forms_from long = long ∷ []
forms_from short = short ∷ long ∷ []
forms_from symbol = symbol ∷ short ∷ long ∷ []

-- The selectors tried for a gendered term are the same term in its form, in the short form if that
-- form is the symbol, and in the long form; three steps of fuel are enough. So are those of the term
-- that the selector is normalised to, in the same form.
pub gendered_fallback-forms :
    (g : GenderedTermSelector) (k : ℕ)
    → (gendered_fallback (suc (suc (suc k))) g ≡ some (map (with_form g) (forms_from (form_of g))))
      × (gendered_fallback (suc (suc (suc k))) (normalise g)
          ≡ some (map (with_form (normalise g)) (forms_from (form_of g))))
unfolding gendered_fallback drain next_form normalise
gendered_fallback-forms g k = ground arith

abbrev pub number_of_term : Option GenderedTermSelector → Option ℕ
number_of_term none = none
number_of_term (some g) = some (number_of g)

month_or_season_term-number :
    (n : ℕ) (form : TermForm)
    → number_of_term (month_or_season_term n form) ≡ (if leb 1 n && leb n 16 then some n else none)
unfolding month_or_season_term month_of season_of
month_or_season_term-number n form = ground arith

-- In a form that has terms, a number has a term exactly from 1 to 16, and it is that of the month
-- or of the season of that number.
from_month_u32-number_of :
    (n : ℕ) (form : MonthForm)
    → is_some (form_of_month form) ≡ true
    → number_of_term (from_month_u32 n form) ≡ (if leb 1 n && leb n 16 then some n else none)
unfolding from_month_u32 form_of_month
from_month_u32-number_of n month_long h = month_or_season_term-number n long
from_month_u32-number_of n month_short h = month_or_season_term-number n short
from_month_u32-number_of n numeric h = cc
from_month_u32-number_of n numeric_leading_zeros h = cc
