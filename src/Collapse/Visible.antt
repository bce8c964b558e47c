-- ===== src/Collapse/Visible.antt =====
-- Collapsing hides no cite that has a locator or an affix.
use citeproc_rs.Base.{
  Bool, true, false, not, ◌&&◌, ◌||◌, List, [], ◌∷◌, Option, some, ◌≡◌, refl, ap, ◌∙◌, map, arith,
  all, All,
}
use citeproc_rs.Base.Runs.{
  group_by, concat, Chained, group_by-Chained, all-group_by, all-concat, all-append,
}
use citeproc_rs.Collapse.{
  CiteInCluster, Tree, WhichStream, nowhere, DelimKind, set_delim, hide, same_name,
  neither_isolated, CollapseMode, citation_number, year_mode, year_suffix_mode, year_suffix_ranged,
  cite_group,
}
use citeproc_rs.Collapse.Numbers.{collapse_numbers, collapse_number_run, number_tail, consecutive}
use citeproc_rs.Collapse.Years.{
  collapse_years, collapse_year_runs, collapse_year_run, year_tail, drop_names, first_affixed,
}
use citeproc_rs.Collapse.Suffixes.{
  collapse_cites, collapse_suffixes, collapse_suffix_name_runs, collapse_suffix_name_run,
  collapse_year_of_suffixes, suffix_runs, collapse_year_suffix_run, suffix_tail, set_last_delim,
  last_delim, drop_tail_names, fill_year, drop_year, same_year, consecutive_suffixes,
}

abbrev is_nowhere : WhichStream → Bool
is_nowhere nowhere = true
is_nowhere _ = false

module _ {G : Type 0} where
  abbrev pub shown : CiteInCluster G → Bool
  shown c = not (is_nowhere c.destination)

  -- shown, or without a locator and affixes
  abbrev pub kept : CiteInCluster G → Bool
  kept c = shown c || not c.has_locator_or_affixes

  kept_of_shown : (cs : List (CiteInCluster G)) → all shown cs ≡ true → all kept cs ≡ true
  kept_of_shown [] h = refl
  kept_of_shown (c ∷ cs) h = ground (arith, kept_of_shown cs)

  kept-number_tail :
      (cs : List (CiteInCluster G))
      → all shown cs ≡ true
      → Chained consecutive cs
      → all kept (number_tail cs) ≡ true
  unfolding number_tail set_delim hide consecutive neither_isolated
  kept-number_tail [] h l = refl
  kept-number_tail (c ∷ []) h l = ground (arith, h)
  kept-number_tail (c ∷ d ∷ cs) h (l, ls) =
      ground (arith, h, l, kept-number_tail (d ∷ cs) (ground (arith, h)) ls)

  kept-number_run :
      (cs : List (CiteInCluster G))
      → all shown cs ≡ true
      → Chained consecutive cs
      → all kept (collapse_number_run cs) ≡ true
  unfolding collapse_number_run set_delim
  kept-number_run [] h l = refl
  kept-number_run (c ∷ []) h l = ground (arith, h)
  kept-number_run (c ∷ d ∷ []) h (l, ls) =
      ground (arith, h, kept-number_tail (d ∷ []) (ground (arith, h)) ls)
  kept-number_run (c ∷ d ∷ e ∷ cs) h (l, ls) =
      ground (arith, h, kept-number_tail (d ∷ e ∷ cs) (ground (arith, h)) ls)

  kept-number_runs :
      (rs : List (List (CiteInCluster G)))
      → All (λ r. all shown r ≡ true) rs
      → All (Chained consecutive) rs
      → All (λ r. all kept r ≡ true) (map collapse_number_run rs)
  kept-number_runs [] hs ls = tt
  kept-number_runs (r ∷ rs) (h, hs) (l, ls) = (kept-number_run r h l, kept-number_runs rs hs ls)

  module _ (tree : Tree G) where
    shown-year_tail :
        (next : Bool) (cs : List (CiteInCluster G))
        → all shown cs ≡ true
        → all shown (year_tail tree next cs) ≡ true
    unfolding year_tail drop_names set_delim
    shown-year_tail next [] h = refl
    shown-year_tail next (c ∷ []) h = h
    shown-year_tail next (c ∷ d ∷ []) h = h
    shown-year_tail next (c ∷ d ∷ e ∷ cs) h =
        ground (arith, h, shown-year_tail next (d ∷ e ∷ cs) (ground (arith, h)))

    shown-year_run :
        (next : Bool) (cs : List (CiteInCluster G))
        → all shown cs ≡ true
        → all shown (collapse_year_run tree next cs) ≡ true
    unfolding collapse_year_run set_delim
    shown-year_run next [] h = refl
    shown-year_run next (c ∷ []) h = h
    shown-year_run next (c ∷ d ∷ cs) h =
        ground (arith, h, shown-year_tail next (d ∷ cs) (ground (arith, h)))

    shown-year_runs :
        (rs : List (List (CiteInCluster G)))
        → All (λ r. all shown r ≡ true) rs
        → all shown (collapse_year_runs tree rs) ≡ true
    unfolding collapse_year_runs
    shown-year_runs [] hs = refl
    shown-year_runs (r ∷ rs) (h, hs) =
        let next = first_affixed rs false in
        all-append shown (collapse_year_run tree next r) (collapse_year_runs tree rs)
        ∙ ground (arith, shown-year_run next r h, shown-year_runs rs hs)

    shown-map-drop_names :
        (cs : List (CiteInCluster G))
        → all shown cs ≡ true
        → all shown (map (drop_names tree) cs) ≡ true
    unfolding drop_names
    shown-map-drop_names [] h = refl
    shown-map-drop_names (c ∷ cs) h = ground (arith, h, shown-map-drop_names cs (ground (arith, h)))

    shown-drop_tail_names :
        (cs : List (CiteInCluster G))
        → all shown cs ≡ true
        → all shown (drop_tail_names tree cs) ≡ true
    unfolding drop_tail_names
    shown-drop_tail_names [] h = refl
    shown-drop_tail_names (c ∷ cs) h =
        ground (arith, h, shown-map-drop_names cs (ground (arith, h)))

    fill_year-shown : (c : CiteInCluster G) → shown (fill_year tree c) ≡ shown c
    unfolding fill_year
    fill_year-shown c = ground arith

    shown-fill_year :
        (cs : List (CiteInCluster G))
        → all shown cs ≡ true
        → all shown (map (fill_year tree) cs) ≡ true
    shown-fill_year [] h = refl
    shown-fill_year (c ∷ cs) h =
        ground (arith, h, fill_year-shown c, shown-fill_year cs (ground (arith, h)))

    kept-suffix_tail :
        (ranged next : Bool) (cs : List (CiteInCluster G))
        → all shown cs ≡ true
        → Chained consecutive_suffixes cs
        → all kept (suffix_tail tree ranged next cs) ≡ true
    unfolding suffix_tail set_delim hide drop_year consecutive_suffixes neither_isolated
    kept-suffix_tail ranged next [] h l = refl
    kept-suffix_tail ranged next (c ∷ []) h l = ground (arith, h)
    kept-suffix_tail ranged next (c ∷ d ∷ cs) h (l, ls) =
        ground (arith, h, l, kept-suffix_tail ranged next (d ∷ cs) (ground (arith, h)) ls)

    kept-suffix_run :
        (first ranged prev next : Bool) (cs : List (CiteInCluster G))
        → all shown cs ≡ true
        → Chained consecutive_suffixes cs
        → all kept (collapse_year_suffix_run tree first ranged prev next cs).0 ≡ true
    unfolding collapse_year_suffix_run set_delim drop_year
    kept-suffix_run first ranged prev next [] h l = refl
    kept-suffix_run first ranged prev next (c ∷ []) h l = ground (arith, h)
    kept-suffix_run first ranged prev next (c ∷ d ∷ cs) h (l, ls) =
        ground (arith, h, kept-suffix_tail ranged next (d ∷ cs) (ground (arith, h)) ls)

    kept-suffix_runs :
        (ranged otherwise first prev : Bool) (rs : List (List (CiteInCluster G)))
        → All (λ r. all shown r ≡ true) rs
        → All (Chained consecutive_suffixes) rs
        → all kept (suffix_runs tree ranged otherwise first prev rs) ≡ true
    unfolding suffix_runs
    kept-suffix_runs ranged otherwise first prev [] hs ls = refl
    kept-suffix_runs ranged otherwise first prev (r ∷ rs) (h, hs) (l, ls) =
        let next = first_affixed rs otherwise in
        let done = collapse_year_suffix_run tree first ranged prev next r in
        let rest = suffix_runs tree ranged otherwise false done.1 rs in
        all-append kept done.0 rest
        ∙ ground (
          arith,
          kept-suffix_run first ranged prev next r h l,
          kept-suffix_runs ranged otherwise false done.1 rs hs ls,
        )

    kept-set_last_delim :
        (o : Option DelimKind) (cs : List (CiteInCluster G))
        → all kept (set_last_delim o cs) ≡ all kept cs
    unfolding set_last_delim
    kept-set_last_delim o [] = refl
    kept-set_last_delim o (c ∷ []) = refl
    kept-set_last_delim o (c ∷ d ∷ cs) = ap (λ b. kept c && b) (kept-set_last_delim o (d ∷ cs))

    kept-year_of_suffixes :
        (ranged otherwise : Bool) (cs : List (CiteInCluster G))
        → all shown cs ≡ true
        → all kept (collapse_year_of_suffixes tree ranged otherwise cs) ≡ true
    unfolding collapse_year_of_suffixes
    kept-year_of_suffixes ranged otherwise cs h =
        let rs = group_by consecutive_suffixes cs in
        kept-set_last_delim (some cite_group) (suffix_runs tree ranged otherwise true false rs)
        ∙ kept-suffix_runs ranged otherwise true false rs
            (all-group_by shown consecutive_suffixes cs h)
            (group_by-Chained consecutive_suffixes cs)

    kept-years :
        (ranged otherwise : Bool) (rs : List (List (CiteInCluster G)))
        → All (λ r. all shown r ≡ true) rs
        → All (λ r. all kept r ≡ true) (map (collapse_year_of_suffixes tree ranged otherwise) rs)
    kept-years ranged otherwise [] hs = tt
    kept-years ranged otherwise (r ∷ rs) (h, hs) =
        (kept-year_of_suffixes ranged otherwise r h, kept-years ranged otherwise rs hs)

    kept-suffix_name_run :
        (ranged otherwise : Bool) (cs : List (CiteInCluster G))
        → all shown cs ≡ true
        → all kept (collapse_suffix_name_run tree ranged otherwise cs) ≡ true
    unfolding collapse_suffix_name_run
    kept-suffix_name_run ranged otherwise cs h =
        let dropped = drop_tail_names tree cs in
        let years = group_by same_year dropped in
        let done = map (collapse_year_of_suffixes tree ranged otherwise) years in
        kept-set_last_delim (last_delim cs) (concat done)
        ∙ all-concat kept done (
            kept-years ranged otherwise years
              (all-group_by shown same_year dropped (shown-drop_tail_names cs h)))

    kept-suffix_name_runs :
        (ranged : Bool) (rs : List (List (CiteInCluster G)))
        → All (λ r. all shown r ≡ true) rs
        → all kept (collapse_suffix_name_runs tree ranged rs) ≡ true
    unfolding collapse_suffix_name_runs
    kept-suffix_name_runs ranged [] hs = refl
    kept-suffix_name_runs ranged (r ∷ rs) (h, hs) =
        let next = first_affixed rs false in
        all-append kept (collapse_suffix_name_run tree ranged next r)
          (collapse_suffix_name_runs tree ranged rs)
        ∙ ground (arith, kept-suffix_name_run ranged next r h, kept-suffix_name_runs ranged rs hs)

    kept-suffixes :
        (ranged : Bool) (cs : List (CiteInCluster G))
        → all shown cs ≡ true
        → all kept (collapse_suffixes tree ranged cs) ≡ true
    unfolding collapse_suffixes
    kept-suffixes ranged cs h =
        let filled_cites = map (fill_year tree) cs in
        kept-suffix_name_runs ranged (group_by same_name filled_cites)
          (all-group_by shown same_name filled_cites (shown-fill_year cs h))

    -- Where every cite is shown at first, a cite that collapsing hides has neither a locator nor an
    -- affix, whatever the mode.
    pub kept-collapse_cites :
        (mode : CollapseMode) (cs : List (CiteInCluster G))
        → all shown cs ≡ true
        → all kept (collapse_cites tree mode cs) ≡ true
    unfolding collapse_cites collapse_numbers collapse_years
    kept-collapse_cites citation_number cs h =
        let rs = group_by consecutive cs in
        all-concat kept (map collapse_number_run rs) (
          kept-number_runs rs (all-group_by shown consecutive cs h)
            (group_by-Chained consecutive cs))
    kept-collapse_cites year_mode cs h =
        kept_of_shown (collapse_year_runs tree (group_by same_name cs))
          (shown-year_runs (group_by same_name cs) (all-group_by shown same_name cs h))
    kept-collapse_cites year_suffix_mode cs h = kept-suffixes false cs h
    kept-collapse_cites year_suffix_ranged cs h = kept-suffixes true cs h
