-- ===== src/Collapse/Tests.antt =====
-- Cites with rendered trees of names, year and suffix: the theorems on them, and the results of
-- grouping and collapsing.
use citeproc_rs.Base.{ℕ, true, false, Option, none, some, List, [], ◌∷◌, ◌≡◌, refl, map, all}
use citeproc_rs.Collapse.{
  CiteInCluster, Tree, new, citation_number, year_mode, year_suffix_ranged, DelimKind, layout,
  range, after_collapse,
}
use citeproc_rs.Collapse.Numbers.{collapse_numbers, marks, collapse_numbers-marks}
use citeproc_rs.Collapse.Suffixes.{collapse_cites}
use citeproc_rs.Collapse.Names.{group_by_name}
use citeproc_rs.Collapse.Names.Kept.{count_id, count_id-group_by_name}
use citeproc_rs.Collapse.Payload.{payloads, payloads-collapse_cites}
use citeproc_rs.Collapse.Visible.{kept, kept-collapse_cites}

-- the text of the names, and the year with its suffix
abbrev Rendered : Type 0
Rendered = Option ℕ × (ℕ × ℕ)

abbrev tree : Tree Rendered
tree = record {
  suppress_names = λ g. (none, g.1);
  suppress_year = λ g. (g.0, (0, g.1.1));
  first_names = λ g. g.0;
  year_and_suffix = λ g. some g.1;
  find_locator = λ g. true;
}

-- a cite without affixes and locators, of a citation number
abbrev plain : ℕ → ℕ → Rendered → CiteInCluster Rendered
unfolding new
plain id cnum g = new tree id none none (some cnum) false g

abbrev located : ℕ → ℕ → Rendered → CiteInCluster Rendered
unfolding new
located id cnum g = new tree id none none (some cnum) true g

abbrev ids : List (CiteInCluster Rendered) → List ℕ
ids = map (λ c. c.cite_id)

abbrev delims : List (CiteInCluster Rendered) → List (Option DelimKind)
delims = map (λ c. c.own_delimiter)

abbrev numbered : List (CiteInCluster Rendered)
numbered =
    plain 1 1 (some 7, (1990, 1))
    ∷ plain 2 2 (some 7, (1990, 2))
    ∷ plain 3 3 (some 7, (1990, 3))
    ∷ plain 4 7 (some 8, (1991, 1))
    ∷ []

collapse_numbers-marks_example : collapse_numbers numbered ≡ marks false numbered
collapse_numbers-marks_example = collapse_numbers-marks numbered

payloads-collapse_cites_example :
    payloads (collapse_cites tree year_suffix_ranged numbered) ≡ payloads numbered
payloads-collapse_cites_example = payloads-collapse_cites tree year_suffix_ranged numbered

kept-collapse_cites_example : all kept (collapse_cites tree citation_number numbered) ≡ true
unfolding plain
kept-collapse_cites_example = kept-collapse_cites tree citation_number numbered refl

count_id-group_by_name_example :
    count_id 3 (group_by_name tree (some year_mode) numbered) ≡ count_id 3 numbered
count_id-group_by_name_example = count_id-group_by_name 3 tree (some year_mode) numbered

-- three consecutive numbers are a range, whose middle is hidden
numbers_range :
    delims (collapse_numbers numbered)
    ≡ some range ∷ some layout ∷ some after_collapse ∷ some layout ∷ []
unfolding collapse_numbers plain
numbers_range = refl

abbrev of_names : ℕ → ℕ → CiteInCluster Rendered
of_names id name = plain id id (some name, (1990, 1))

-- cites of the same names are brought together
names_together :
    ids (group_by_name tree (some year_mode) (of_names 1 7 ∷ of_names 2 8 ∷ of_names 3 7 ∷ []))
    ≡ 1 ∷ 3 ∷ 2 ∷ []
unfolding group_by_name plain
names_together = refl

-- the index kept for the second names is not moved on by the rotation before it: the second cite of
-- the second names comes to stand between cites of the first
names_apart :
    ids (
      group_by_name tree
        (some year_mode)
        (of_names 1 7 ∷ of_names 2 8 ∷ of_names 3 7 ∷ of_names 4 7 ∷ of_names 5 8 ∷ []))
    ≡ 1 ∷ 3 ∷ 5 ∷ 4 ∷ 2 ∷ []
unfolding group_by_name plain
names_apart = refl

-- the two cites of the second names change places
names_reversed :
    ids (
      group_by_name tree
        (some year_mode)
        (of_names 1 7 ∷ of_names 2 8 ∷ of_names 3 7 ∷ of_names 4 8 ∷ []))
    ≡ 1 ∷ 3 ∷ 4 ∷ 2 ∷ []
unfolding group_by_name plain
names_reversed = refl
