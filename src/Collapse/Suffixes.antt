-- ===== src/Collapse/Suffixes.antt =====
-- `collapse_cites` with year suffixes: within a run of the same names, years are written once, and
-- consecutive suffixes may become ranges.
use citeproc_rs.Base.{
  Bool, true, false, not, ◌&&◌, ◌||◌, List, [], ◌∷◌, ◌++◌, Option, none, some, if◌then◌else◌, map,
  is_empty,
}
use citeproc_rs.Base.Runs.{group_by, concat}
use citeproc_rs.Collapse.{
  CiteInCluster, Tree, DelimKind, cite_group, year_suffix_delim, range, set_delim, hide, same_name,
  same, plus_one, filled, neither_isolated, CollapseMode, citation_number, year_mode,
  year_suffix_mode, year_suffix_ranged,
}
use citeproc_rs.Collapse.Numbers.{collapse_numbers}
use citeproc_rs.Collapse.Years.{collapse_years, first_affixed, drop_names}

module _ {G : Type 0} where
  -- `suppress_year`
  unfoldable pub drop_year : Tree G → CiteInCluster G → CiteInCluster G
  drop_year tree c = record c { gen4 = tree.suppress_year c.gen4 }

  -- `trailing_delim`
  unfoldable pub trailing_delim : Bool → CiteInCluster G → DelimKind
  trailing_delim next_affixed c =
      if c.has_locator_or_affixes || next_affixed then cite_group else year_suffix_delim

  -- the middle of a run of suffixes and its last
  unfoldable pub suffix_tail :
      Tree G → Bool → Bool → List (CiteInCluster G) → List (CiteInCluster G)
  unfolding drop_year trailing_delim set_delim hide
  suffix_tail tree ranged next_affixed [] = []
  suffix_tail tree ranged next_affixed (last ∷ []) =
      set_delim (trailing_delim next_affixed last) (drop_year tree last) ∷ []
  suffix_tail tree ranged next_affixed (c ∷ d ∷ cs) =
      (if ranged then hide c else set_delim year_suffix_delim (drop_year tree c))
      ∷ suffix_tail tree ranged next_affixed (d ∷ cs)

  -- `collapse_year_suffix_run`: the run, and `prev_affixed` afterwards
  unfoldable pub collapse_year_suffix_run :
      Tree G → Bool → Bool → Bool → Bool → List (CiteInCluster G) → List (CiteInCluster G) × Bool
  unfolding suffix_tail
  collapse_year_suffix_run tree is_first ranged prev_affixed next_affixed [] = ([], prev_affixed)
  collapse_year_suffix_run tree is_first ranged prev_affixed next_affixed (single ∷ []) =
      let drops = ranged && not single.has_locator_or_affixes && not is_first && not prev_affixed in
      let c = if drops then drop_year tree single else single in
      (set_delim (trailing_delim next_affixed c) c ∷ [], single.has_locator_or_affixes)
  collapse_year_suffix_run tree is_first ranged prev_affixed next_affixed (head ∷ m ∷ cs) =
      let c = if not is_first && not prev_affixed then drop_year tree head else head in
      (
        set_delim (if ranged && not (is_empty cs) then range else year_suffix_delim) c
            ∷ suffix_tail tree ranged next_affixed (m ∷ cs),
        false,
      )

  -- the loop over the runs of suffixes of one year; `otherwise` is about the next run of names
  unfoldable pub suffix_runs :
      Tree G → Bool → Bool → Bool → Bool → List (List (CiteInCluster G)) → List (CiteInCluster G)
  unfolding collapse_year_suffix_run first_affixed
  suffix_runs tree ranged otherwise is_first prev_affixed [] = []
  suffix_runs tree ranged otherwise is_first prev_affixed (run ∷ runs) =
      let next_affixed = first_affixed runs otherwise in
      let r = collapse_year_suffix_run tree is_first ranged prev_affixed next_affixed run in
      r.0 ++ suffix_runs tree ranged otherwise false r.1 runs

  -- the suffixes are consecutive, and both cites are without locator and affixes
  unfoldable pub consecutive_suffixes : CiteInCluster G → CiteInCluster G → Bool
  unfolding same plus_one neither_isolated
  consecutive_suffixes a b = same (plus_one a.year_suffix) b.year_suffix && neither_isolated a b

  unfoldable pub same_year : CiteInCluster G → CiteInCluster G → Bool
  unfolding same
  same_year a b = same a.year b.year

  -- `last_mut()`
  unfoldable pub set_last_delim : Option DelimKind → List (CiteInCluster G) → List (CiteInCluster G)
  set_last_delim d [] = []
  set_last_delim d (c ∷ []) = record c { own_delimiter = d } ∷ []
  set_last_delim d (b ∷ c ∷ cs) = b ∷ set_last_delim d (c ∷ cs)

  unfoldable pub last_delim : List (CiteInCluster G) → Option DelimKind
  last_delim [] = none
  last_delim (c ∷ []) = c.own_delimiter
  last_delim (b ∷ c ∷ cs) = last_delim (c ∷ cs)

  unfoldable pub collapse_year_of_suffixes :
      Tree G → Bool → Bool → List (CiteInCluster G) → List (CiteInCluster G)
  unfolding suffix_runs consecutive_suffixes set_last_delim
  collapse_year_of_suffixes tree ranged otherwise year_run =
      set_last_delim (some cite_group)
        (suffix_runs tree ranged otherwise true false (group_by consecutive_suffixes year_run))

  -- `name_run[1..]` loses its names
  unfoldable pub drop_tail_names : Tree G → List (CiteInCluster G) → List (CiteInCluster G)
  unfolding drop_names
  drop_tail_names tree [] = []
  drop_tail_names tree (c ∷ cs) = c ∷ map (drop_names tree) cs

  unfoldable pub collapse_suffix_name_run :
      Tree G → Bool → Bool → List (CiteInCluster G) → List (CiteInCluster G)
  unfolding collapse_year_of_suffixes same_year drop_tail_names last_delim
  collapse_suffix_name_run tree ranged otherwise name_run = set_last_delim (last_delim name_run) (
      concat (
        map (collapse_year_of_suffixes tree ranged otherwise)
          (group_by same_year (drop_tail_names tree name_run))))

  unfoldable pub collapse_suffix_name_runs :
      Tree G → Bool → List (List (CiteInCluster G)) → List (CiteInCluster G)
  unfolding collapse_suffix_name_run
  collapse_suffix_name_runs tree ranged [] = []
  collapse_suffix_name_runs tree ranged (run ∷ runs) =
      collapse_suffix_name_run tree ranged (first_affixed runs false) run
      ++ collapse_suffix_name_runs tree ranged runs

  -- the year and the suffix of a cite, where its tree has them
  unfoldable pub fill_year : Tree G → CiteInCluster G → CiteInCluster G
  fill_year tree c = elim (tree.year_and_suffix c.gen4) as (λ _. CiteInCluster G) [
    | none ↦ c
    | some ys ↦ record c { year = filled ys.0; year_suffix = filled ys.1 }
  ]

  unfoldable pub collapse_suffixes : Tree G → Bool → List (CiteInCluster G) → List (CiteInCluster G)
  unfolding collapse_suffix_name_runs fill_year same_name
  collapse_suffixes tree ranged cites =
      collapse_suffix_name_runs tree ranged (group_by same_name (map (fill_year tree) cites))

  unfoldable pub collapse_cites :
      Tree G → CollapseMode → List (CiteInCluster G) → List (CiteInCluster G)
  unfolding collapse_numbers collapse_years collapse_suffixes
  collapse_cites tree citation_number cites = collapse_numbers cites
  collapse_cites tree year_mode cites = collapse_years tree cites
  collapse_cites tree year_suffix_mode cites = collapse_suffixes tree false cites
  collapse_cites tree year_suffix_ranged cites = collapse_suffixes tree true cites
