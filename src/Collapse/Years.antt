-- ===== src/Collapse/Years.antt =====
-- `collapse_cites` with years: the names of a run of cites with the same names are written once.
use citeproc_rs.Base.{Bool, false, ◌||◌, List, [], ◌∷◌, ◌++◌, if◌then◌else◌}
use citeproc_rs.Base.Runs.{group_by}
use citeproc_rs.Collapse.{
  CiteInCluster, Tree, DelimKind, cite_group, after_collapse, set_delim, same_name,
}

module _ {G : Type 0} where
  -- `first().map_or(false, |x| x.has_locator_or_affixes)`, over runs and then what comes after them
  unfoldable pub first_affixed : List (List (CiteInCluster G)) → Bool → Bool
  first_affixed ((c ∷ _) ∷ _) otherwise = c.has_locator_or_affixes
  first_affixed _ otherwise = otherwise

  -- `delim_for_cite`
  unfoldable pub delim_for_cite : CiteInCluster G → Bool → DelimKind
  delim_for_cite c next_affixed =
      if c.has_locator_or_affixes || next_affixed then after_collapse else cite_group

  unfoldable pub drop_names : Tree G → CiteInCluster G → CiteInCluster G
  drop_names tree c = record c { gen4 = tree.suppress_names c.gen4 }

  -- the middle of a run and its last; for the end of the middle the cite looked at is the first of
  -- the next run, not the last of this one
  unfoldable pub year_tail : Tree G → Bool → List (CiteInCluster G) → List (CiteInCluster G)
  unfolding drop_names delim_for_cite set_delim
  year_tail tree next_run [] = []
  year_tail tree next_run (last ∷ []) = drop_names tree last ∷ []
  year_tail tree next_run (c ∷ last ∷ []) =
      set_delim (delim_for_cite c next_run) (drop_names tree c)
      ∷ year_tail tree next_run (last ∷ [])
  year_tail tree next_run (c ∷ d ∷ e ∷ cs) =
      set_delim (delim_for_cite c d.has_locator_or_affixes) (drop_names tree c)
      ∷ year_tail tree next_run (d ∷ e ∷ cs)

  -- whether the first of the middle has a locator or affixes
  unfoldable pub middle_affixed : List (CiteInCluster G) → Bool
  middle_affixed (m ∷ _ ∷ _) = m.has_locator_or_affixes
  middle_affixed _ = false

  unfoldable pub collapse_year_run : Tree G → Bool → List (CiteInCluster G) → List (CiteInCluster G)
  unfolding year_tail middle_affixed
  collapse_year_run tree next_run [] = []
  collapse_year_run tree next_run (single ∷ []) = single ∷ []
  collapse_year_run tree next_run (head ∷ m ∷ cs) =
      set_delim (delim_for_cite head (middle_affixed (m ∷ cs))) head
      ∷ year_tail tree next_run (m ∷ cs)

  -- `while let Some(name_run) = by_name.next()`
  unfoldable pub collapse_year_runs :
      Tree G → List (List (CiteInCluster G)) → List (CiteInCluster G)
  unfolding collapse_year_run first_affixed
  collapse_year_runs tree [] = []
  collapse_year_runs tree (run ∷ runs) =
      collapse_year_run tree (first_affixed runs false) run ++ collapse_year_runs tree runs

  unfoldable pub collapse_years : Tree G → List (CiteInCluster G) → List (CiteInCluster G)
  unfolding collapse_year_runs same_name
  collapse_years tree cites = collapse_year_runs tree (group_by same_name cites)
