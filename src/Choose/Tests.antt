-- ===== src/Choose/Tests.antt =====
-- A reference with a year, a citation of it in the first position, and branches on both.
use mathlib.Core.List.{Perm}
use mathlib.Core.List.Perm
use citeproc_rs.Base.{
  if◌then◌else◌, ℕ, true, false, not, List, [], ◌∷◌, none, some, ◌≡◌, refl, ◌==◌,
}
use citeproc_rs.Base.Int.{pos}
use citeproc_rs.Position.{first, matches, same}
use citeproc_rs.Dates.{Date, single}
use citeproc_rs.Choose.{
  Cond, CondSet, Conditions, CondChecker, variable, position, disambiguate, has_year_only,
  match_all, eval_condset, test_cond, eval_conditions, choose_ref, choose_cite, year_only,
  useless_cond_checker, answers, run_matcher, position_matches, names_disambiguate,
  is_disambiguate_cond, eval_ifthen_ref,
}
use citeproc_rs.Choose.Branches.{choose_ref-choose_cite}

abbrev year_2020 : Date
year_2020 = record { year = pos 2020; month = 0; day = 0; circa = false }

abbrev checker : CondChecker
checker = record {
  has_variable = λ v. v == 3;
  numeric = λ _. false;
  is_disambiguate = λ count. not (count == 0);
  type_of = 5;
  locator_type = none;
  get_date = λ v. if v == 1 then some (single year_2020) else none;
  position_of = some first;
  condition_date_parts = true;
}

abbrev one_set : List Cond → Conditions
one_set cs = record {
  match_type = match_all;
  sets = record { match_type = match_all; conds = cs } ∷ [];
}

abbrev dated : CondSet
dated = record { match_type = match_all; conds = has_year_only 1 ∷ position first ∷ [] }

-- the conditions of `dated` hold, and the useless checker answers nothing
dated_holds :
    (eval_condset checker 0 dated ≡ true) × (eval_condset useless_cond_checker 0 dated ≡ false)
unfolding eval_condset answers run_matcher test_cond year_only position_matches matches same
    useless_cond_checker
dated_holds = (refl, refl)

abbrev by_disambiguation : List (Conditions × ℕ)
by_disambiguation = (one_set (variable 7 ∷ []), 100) ∷ (one_set (disambiguate true ∷ []), 200) ∷ []

-- a reference takes the branch for disambiguation on its second visit; a cite waits
disambiguated :
    (choose_ref checker by_disambiguation 300 0 ≡ (300, 1))
    × (choose_ref checker by_disambiguation 300 1 ≡ (200, 2))
    × (choose_cite checker by_disambiguation 300 false ≡ (300, true))
unfolding choose_ref choose_cite eval_ifthen_ref eval_conditions eval_condset names_disambiguate
    is_disambiguate_cond answers run_matcher test_cond
disambiguated = (refl, refl, refl)

abbrev by_variable : List (Conditions × ℕ)
by_variable = (one_set (variable 7 ∷ []), 100) ∷ (one_set (variable 3 ∷ []), 200) ∷ []

swapped : Perm (variable 3 ∷ variable 7 ∷ []) (variable 7 ∷ variable 3 ∷ [])
swapped = Perm.swap (variable 7) (variable 3) []

choose_ref-choose_cite_example :
    (choose_ref checker by_variable 300 4 ≡ ((choose_cite checker by_variable 300 false).0, 4))
    × ((choose_cite checker by_variable 300 false).1 ≡ false)
unfolding eval_conditions names_disambiguate is_disambiguate_cond
choose_ref-choose_cite_example = choose_ref-choose_cite checker by_variable 300 4 refl
