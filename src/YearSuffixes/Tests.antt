-- ===== src/YearSuffixes/Tests.antt =====
-- Four references of which three cites are ambiguous, and a group that is given its suffixes.
use citeproc_rs.Base.{
  ap, get_elem?, ℕ, ◌≤◌, true, List, [], ◌∷◌, none, some, ◌≡◌, refl, arith, any, ◌==◌,
  if◌then◌else◌,
}
use citeproc_rs.YearSuffixes.Whole.{year_suffixes-Ordered, Ordered}
use citeproc_rs.Base.Map.{Map}
use citeproc_rs.YearSuffixes.{
  IrDatabase, BibNumber, cited, uncited, year_suffixes, final_groups, round, assign_group,
  ref_bib_number, touches, intersects, coalesce_groups, absorb, extend, put_back, assign_all, get,
}
use citeproc_rs.YearSuffixes.Rounds.{count, final_groups-apart}
use citeproc_rs.YearSuffixes.Together.{holds, round-holds, round_lost}

-- 0 is ambiguous with 1, 2 with 3, and 1 with 2
abbrev ambiguous : ℕ → List ℕ
ambiguous k =
    if k == 0 then 0 ∷ 1 ∷ [] else if k == 1 then 1 ∷ 2 ∷ [] else if k == 2 then 2 ∷ 3 ∷ [] else []

abbrev numbers : Map BibNumber
numbers k =
    if k == 0
    then some (cited 1)
    else if k == 1
    then some (cited 4)
    else if k == 2
    then some (cited 2)
    else if k == 3
    then some (uncited 3)
    else none

abbrev four : IrDatabase
four = record {
  disambiguate_add_year_suffix = true;
  all_keys = 0 ∷ 1 ∷ 2 ∷ 3 ∷ [];
  sorted_refs = 0 ∷ 2 ∷ 3 ∷ 1 ∷ [];
  bib_numbers = numbers;
  matching_refs = ambiguous;
}

-- 0 shares a group with 1 at first, and 3 one with 2; the round of 1 drops both
four_groups : final_groups four ≡ (2 ∷ 1 ∷ []) ∷ []
unfolding final_groups round coalesce_groups put_back touches intersects absorb extend
four_groups = refl

four_suffixes :
    (year_suffixes four 2 ≡ some 1)
    × (year_suffixes four 1 ≡ some 2)
    × (year_suffixes four 0 ≡ none)
    × (year_suffixes four 3 ≡ none)
unfolding year_suffixes final_groups round coalesce_groups put_back touches intersects absorb extend
    assign_group assign_all ref_bib_number get
four_suffixes = (refl, refl, refl, refl)

final_groups-apart_example : count 2 (final_groups four) ≤ 1
final_groups-apart_example = final_groups-apart four 2 (refl, (refl, (refl, (refl, tt))))

round-holds_example :
    any (holds 1 (1 ∷ 2 ∷ [])) (round (1 ∷ 2 ∷ []) ((0 ∷ 1 ∷ []) ∷ (2 ∷ 3 ∷ []) ∷ []) 1) ≡ true
unfolding touches intersects
round-holds_example =
    round-holds (1 ∷ 2 ∷ []) ((0 ∷ 1 ∷ []) ∷ (2 ∷ 3 ∷ []) ∷ []) 1 (omega arith) refl

round_lost_example :
    (count 0 ((0 ∷ 1 ∷ []) ∷ (2 ∷ 3 ∷ []) ∷ []) ≡ 1)
    × (count 0 (round (1 ∷ 2 ∷ []) ((0 ∷ 1 ∷ []) ∷ (2 ∷ 3 ∷ []) ∷ []) 1) ≡ 0)
unfolding touches intersects
round_lost_example =
    round_lost (1 ∷ 2 ∷ []) (0 ∷ 1 ∷ []) (2 ∷ 3 ∷ []) 1 0 (omega arith) refl refl refl refl refl

year_suffixes-Ordered_example : Ordered (year_suffixes four) 2 1 2
unfolding ref_bib_number get
year_suffixes-Ordered_example =
    year_suffixes-Ordered four 0 (2 ∷ 1 ∷ []) 2 1 refl (refl, (refl, (refl, (refl, tt))))
      (ap (λ gs. get_elem? gs 0) four_groups) (omega arith) refl refl (omega arith)
