-- ===== src/Collapse/Payload.antt =====
-- Collapsing keeps the cites, in their order.
use citeproc_rs.Base.{
  ℕ, Bool, true, false, not, ◌&&◌, List, [], ◌∷◌, ◌++◌, Option, none, some, ◌≡◌, refl, ap, ◌∙◌, sym,
  map, if◌then◌else◌,
}
use citeproc_rs.Base.Runs.{group_by, concat, map-concat, concat-group_by, map-append}
use citeproc_rs.Collapse.{
  CiteInCluster, Tree, Partial, DelimKind, set_delim, hide, same_name, CollapseMode,
  citation_number, year_mode, year_suffix_mode, year_suffix_ranged, filled, cite_group,
}
use citeproc_rs.Collapse.Numbers.{collapse_numbers, collapse_number_run, number_tail, consecutive}
use citeproc_rs.Collapse.Years.{
  collapse_years, collapse_year_runs, collapse_year_run, year_tail, drop_names, first_affixed,
}
use citeproc_rs.Collapse.Suffixes.{
  collapse_cites, collapse_suffixes, collapse_suffix_name_runs, collapse_suffix_name_run,
  collapse_year_of_suffixes, suffix_runs, collapse_year_suffix_run, suffix_tail, set_last_delim,
  last_delim, drop_tail_names, fill_year, drop_year, same_year, consecutive_suffixes,
}

module _ {G : Type 0} where
  -- what a cite is, apart from its tree, its year, its delimiter and its destination
  abbrev pub payload :
      CiteInCluster G → ℕ × (List ℕ × (List ℕ × (Partial ℕ × (Partial ℕ × (Bool × Bool)))))
  payload c = (
    c.cite_id,
    (
      c.prefix,
      (c.suffix, (c.cnum, (c.unique_name_number, (c.has_locator, c.has_locator_or_affixes)))),
    ),
  )

  abbrev pub payloads :
      List (CiteInCluster G)
      → List (ℕ × (List ℕ × (List ℕ × (Partial ℕ × (Partial ℕ × (Bool × Bool))))))
  payloads = map payload

  payloads-number_tail : (cs : List (CiteInCluster G)) → payloads (number_tail cs) ≡ payloads cs
  unfolding number_tail set_delim hide
  payloads-number_tail [] = refl
  payloads-number_tail (c ∷ []) = refl
  payloads-number_tail (c ∷ d ∷ cs) = ap (λ l. payload c ∷ l) (payloads-number_tail (d ∷ cs))

  payloads-number_run :
      (cs : List (CiteInCluster G)) → payloads (collapse_number_run cs) ≡ payloads cs
  unfolding collapse_number_run set_delim
  payloads-number_run [] = refl
  payloads-number_run (c ∷ []) = refl
  payloads-number_run (c ∷ d ∷ []) = ap (λ l. payload c ∷ l) (payloads-number_tail (d ∷ []))
  payloads-number_run (c ∷ d ∷ e ∷ cs) = ap (λ l. payload c ∷ l) (payloads-number_tail (d ∷ e ∷ cs))

  module _ (tree : Tree G) where
    payloads-year_tail :
        (next : Bool) (cs : List (CiteInCluster G))
        → payloads (year_tail tree next cs) ≡ payloads cs
    unfolding year_tail drop_names set_delim
    payloads-year_tail next [] = refl
    payloads-year_tail next (c ∷ []) = refl
    payloads-year_tail next (c ∷ d ∷ []) = refl
    payloads-year_tail next (c ∷ d ∷ e ∷ cs) =
        ap (λ l. payload c ∷ l) (payloads-year_tail next (d ∷ e ∷ cs))

    payloads-year_run :
        (next : Bool) (cs : List (CiteInCluster G))
        → payloads (collapse_year_run tree next cs) ≡ payloads cs
    unfolding collapse_year_run set_delim
    payloads-year_run next [] = refl
    payloads-year_run next (c ∷ []) = refl
    payloads-year_run next (c ∷ d ∷ cs) = ap (λ l. payload c ∷ l) (payloads-year_tail next (d ∷ cs))

    payloads-year_runs :
        (rs : List (List (CiteInCluster G)))
        → payloads (collapse_year_runs tree rs) ≡ payloads (concat rs)
    unfolding collapse_year_runs
    payloads-year_runs [] = refl
    payloads-year_runs (r ∷ rs) =
        let next = first_affixed rs false in
        map-append payload (collapse_year_run tree next r) (collapse_year_runs tree rs)
        ∙ (ap (λ l. l ++ payloads (collapse_year_runs tree rs)) (payloads-year_run next r)
            ∙ (ap (λ l. payloads r ++ l) (payloads-year_runs rs)
                ∙ sym (map-append payload r (concat rs))))

    payloads-suffix_tail :
        (ranged next : Bool) (cs : List (CiteInCluster G))
        → payloads (suffix_tail tree ranged next cs) ≡ payloads cs
    unfolding suffix_tail drop_year set_delim hide
    payloads-suffix_tail ranged next [] = refl
    payloads-suffix_tail ranged next (c ∷ []) = refl
    payloads-suffix_tail true next (c ∷ d ∷ cs) =
        ap (λ l. payload c ∷ l) (payloads-suffix_tail true next (d ∷ cs))
    payloads-suffix_tail false next (c ∷ d ∷ cs) =
        ap (λ l. payload c ∷ l) (payloads-suffix_tail false next (d ∷ cs))

    payload-if :
        (b : Bool) (c : CiteInCluster G) → payload (if b then drop_year tree c else c) ≡ payload c
    unfolding drop_year
    payload-if true c = refl
    payload-if false c = refl

    payloads-suffix_run :
        (first ranged prev next : Bool) (cs : List (CiteInCluster G))
        → payloads (collapse_year_suffix_run tree first ranged prev next cs).0 ≡ payloads cs
    unfolding collapse_year_suffix_run set_delim
    payloads-suffix_run first ranged prev next [] = refl
    payloads-suffix_run first ranged prev next (c ∷ []) =
        ap (λ p. p ∷ [])
          (payload-if (ranged && not c.has_locator_or_affixes && not first && not prev) c)
    payloads-suffix_run first ranged prev next (c ∷ d ∷ cs) =
        ap (λ p. p ∷ payloads (suffix_tail tree ranged next (d ∷ cs)))
          (payload-if (not first && not prev) c)
        ∙ ap (λ l. payload c ∷ l) (payloads-suffix_tail ranged next (d ∷ cs))

    payloads-suffix_runs :
        (ranged otherwise first prev : Bool) (rs : List (List (CiteInCluster G)))
        → payloads (suffix_runs tree ranged otherwise first prev rs) ≡ payloads (concat rs)
    unfolding suffix_runs
    payloads-suffix_runs ranged otherwise first prev [] = refl
    payloads-suffix_runs ranged otherwise first prev (r ∷ rs) =
        let next = first_affixed rs otherwise in
        let done = collapse_year_suffix_run tree first ranged prev next r in
        let rest = suffix_runs tree ranged otherwise false done.1 rs in
        map-append payload done.0 rest
        ∙ (ap (λ l. l ++ payloads rest) (payloads-suffix_run first ranged prev next r)
            ∙ (ap (λ l. payloads r ++ l) (payloads-suffix_runs ranged otherwise false done.1 rs)
                ∙ sym (map-append payload r (concat rs))))

    payloads-set_last_delim :
        (o : Option DelimKind) (cs : List (CiteInCluster G))
        → payloads (set_last_delim o cs) ≡ payloads cs
    unfolding set_last_delim
    payloads-set_last_delim o [] = refl
    payloads-set_last_delim o (c ∷ []) = refl
    payloads-set_last_delim o (c ∷ d ∷ cs) =
        ap (λ l. payload c ∷ l) (payloads-set_last_delim o (d ∷ cs))

    payloads-year_of_suffixes :
        (ranged otherwise : Bool) (cs : List (CiteInCluster G))
        → payloads (collapse_year_of_suffixes tree ranged otherwise cs) ≡ payloads cs
    unfolding collapse_year_of_suffixes
    payloads-year_of_suffixes ranged otherwise cs =
        payloads-set_last_delim (some cite_group)
          (suffix_runs tree ranged otherwise true false (group_by consecutive_suffixes cs))
        ∙ (payloads-suffix_runs ranged otherwise true false (group_by consecutive_suffixes cs)
            ∙ ap payloads (concat-group_by consecutive_suffixes cs))

    payloads-drop_names :
        (cs : List (CiteInCluster G)) → payloads (map (drop_names tree) cs) ≡ payloads cs
    unfolding drop_names
    payloads-drop_names [] = refl
    payloads-drop_names (c ∷ cs) = ap (λ l. payload c ∷ l) (payloads-drop_names cs)

    payloads-drop_tail_names :
        (cs : List (CiteInCluster G)) → payloads (drop_tail_names tree cs) ≡ payloads cs
    unfolding drop_tail_names
    payloads-drop_tail_names [] = refl
    payloads-drop_tail_names (c ∷ cs) = ap (λ l. payload c ∷ l) (payloads-drop_names cs)

    payloads-suffix_name_run :
        (ranged otherwise : Bool) (cs : List (CiteInCluster G))
        → payloads (collapse_suffix_name_run tree ranged otherwise cs) ≡ payloads cs
    unfolding collapse_suffix_name_run
    payloads-suffix_name_run ranged otherwise cs =
        let years = group_by same_year (drop_tail_names tree cs) in
        payloads-set_last_delim (last_delim cs)
          (concat (map (collapse_year_of_suffixes tree ranged otherwise) years))
        ∙ (map-concat payload (collapse_year_of_suffixes tree ranged otherwise) years
              (payloads-year_of_suffixes ranged otherwise)
            ∙ (ap payloads (concat-group_by same_year (drop_tail_names tree cs))
                ∙ payloads-drop_tail_names cs))

    payloads-suffix_name_runs :
        (ranged : Bool) (rs : List (List (CiteInCluster G)))
        → payloads (collapse_suffix_name_runs tree ranged rs) ≡ payloads (concat rs)
    unfolding collapse_suffix_name_runs
    payloads-suffix_name_runs ranged [] = refl
    payloads-suffix_name_runs ranged (r ∷ rs) =
        let next = first_affixed rs false in
        let done = collapse_suffix_name_run tree ranged next r in
        let rest = collapse_suffix_name_runs tree ranged rs in
        map-append payload done rest
        ∙ (ap (λ l. l ++ payloads rest) (payloads-suffix_name_run ranged next r)
            ∙ (ap (λ l. payloads r ++ l) (payloads-suffix_name_runs ranged rs)
                ∙ sym (map-append payload r (concat rs))))

    payload-fill_year : (c : CiteInCluster G) → payload (fill_year tree c) ≡ payload c
    unfolding fill_year
    payload-fill_year c =
        elim (tree.year_and_suffix c.gen4)
          as (λ o.
            payload (elim o as (λ _. CiteInCluster G) [
              | none ↦ c
              | some ys ↦ record c { year = filled ys.0; year_suffix = filled ys.1 }
            ])
            ≡ payload c) [ none ↦ refl | some ys ↦ refl ]

    payloads-fill_year :
        (cs : List (CiteInCluster G)) → payloads (map (fill_year tree) cs) ≡ payloads cs
    payloads-fill_year [] = refl
    payloads-fill_year (c ∷ cs) =
        ap (λ p. p ∷ payloads (map (fill_year tree) cs)) (payload-fill_year c)
        ∙ ap (λ l. payload c ∷ l) (payloads-fill_year cs)

    payloads-suffixes :
        (ranged : Bool) (cs : List (CiteInCluster G))
        → payloads (collapse_suffixes tree ranged cs) ≡ payloads cs
    unfolding collapse_suffixes
    payloads-suffixes ranged cs =
        payloads-suffix_name_runs ranged (group_by same_name (map (fill_year tree) cs))
        ∙ (ap payloads (concat-group_by same_name (map (fill_year tree) cs))
            ∙ payloads-fill_year cs)

    -- Whatever the mode, collapsing adds no cite, loses none and moves none, and keeps the affixes,
    -- the number and the name of each.
    pub payloads-collapse_cites :
        (mode : CollapseMode) (cs : List (CiteInCluster G))
        → payloads (collapse_cites tree mode cs) ≡ payloads cs
    unfolding collapse_cites collapse_numbers collapse_years
    payloads-collapse_cites citation_number cs =
        map-concat payload collapse_number_run (group_by consecutive cs) payloads-number_run
        ∙ ap payloads (concat-group_by consecutive cs)
    payloads-collapse_cites year_mode cs =
        payloads-year_runs (group_by same_name cs) ∙ ap payloads (concat-group_by same_name cs)
    payloads-collapse_cites year_suffix_mode cs = payloads-suffixes false cs
    payloads-collapse_cites year_suffix_ranged cs = payloads-suffixes true cs
