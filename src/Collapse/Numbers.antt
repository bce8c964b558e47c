-- ===== src/Collapse/Numbers.antt =====
-- `collapse_cites` with citation numbers: runs of consecutive numbers become ranges.
use citeproc_rs.Base.{
  Bool, true, false, not, ◌&&◌, List, [], ◌∷◌, ◌++◌, ◌≡◌, refl, ap, ◌∙◌, sym, is_empty, map,
  Bool-cases, inl, inr,
}
use citeproc_rs.Base.Runs.{group_by, concat, join_run, linked_to, group_by-cons}
use citeproc_rs.Collapse.{
  CiteInCluster, layout, range, after_collapse, set_delim, hide, same, plus_one, neither_isolated,
}

module _ {G : Type 0} where
  -- the number of a cite follows that of the one before, and both are without locator and affixes
  unfoldable pub consecutive : CiteInCluster G → CiteInCluster G → Bool
  unfolding same plus_one neither_isolated
  consecutive a b = same (plus_one a.cnum) b.cnum && neither_isolated a b

  -- the cites of a run after its first: `middle` and `last`
  unfoldable pub number_tail : List (CiteInCluster G) → List (CiteInCluster G)
  unfolding set_delim hide
  number_tail [] = []
  number_tail (last ∷ []) = set_delim after_collapse last ∷ []
  number_tail (c ∷ d ∷ cs) = hide c ∷ number_tail (d ∷ cs)

  unfoldable pub collapse_number_run : List (CiteInCluster G) → List (CiteInCluster G)
  unfolding set_delim number_tail
  collapse_number_run [] = []
  collapse_number_run (single ∷ []) = set_delim layout single ∷ []
  collapse_number_run (head ∷ last ∷ []) = set_delim layout head ∷ number_tail (last ∷ [])
  collapse_number_run (head ∷ m ∷ n ∷ cs) = set_delim range head ∷ number_tail (m ∷ n ∷ cs)

  unfoldable pub collapse_numbers : List (CiteInCluster G) → List (CiteInCluster G)
  unfolding consecutive collapse_number_run
  collapse_numbers cites = concat (map collapse_number_run (group_by consecutive cites))

  -- One pass, with what is known of the cites before and after: a cite between two that it is
  -- consecutive with is hidden.
  abbrev pub mark : Bool → Bool → Bool → CiteInCluster G → CiteInCluster G
  mark false false _ c = set_delim layout c
  mark false true true c = set_delim range c
  mark false true false c = set_delim layout c
  mark true true _ c = hide c
  mark true false _ c = set_delim after_collapse c

  abbrev pub linked_next : List (CiteInCluster G) → Bool
  linked_next [] = false
  linked_next (c ∷ cs) = linked_to consecutive c cs

  abbrev pub marks : Bool → List (CiteInCluster G) → List (CiteInCluster G)
  marks before [] = []
  marks before (c ∷ cs) =
      mark before (linked_to consecutive c cs) (linked_next cs) c
      ∷ marks (linked_to consecutive c cs) cs

  -- the first of some runs is the rest of a run
  abbrev in_run : List (List (CiteInCluster G)) → List (CiteInCluster G)
  in_run [] = []
  in_run (r ∷ rs) = number_tail r ++ concat (map collapse_number_run rs)

  run_head :
      (c d : CiteInCluster G) (r : List (CiteInCluster G)) (rs : List (List (CiteInCluster G)))
      → concat (map collapse_number_run ((c ∷ d ∷ r) ∷ rs))
        ≡ mark false true (not (is_empty r)) c ∷ in_run ((d ∷ r) ∷ rs)
  unfolding collapse_number_run number_tail
  run_head c d [] rs = refl
  run_head c d (x ∷ xs) rs = refl

  marks-runs :
      (c : CiteInCluster G) (cs : List (CiteInCluster G))
      → (concat (map collapse_number_run (group_by consecutive (c ∷ cs))) ≡ marks false (c ∷ cs))
        × (in_run (group_by consecutive (c ∷ cs)) ≡ marks true (c ∷ cs))
  unfolding collapse_number_run number_tail
  marks-runs c [] = (refl, refl)
  marks-runs c (d ∷ cs) =
      let (r, rs, e, more) = group_by-cons consecutive d cs in
      let (apart, inside) = marks-runs d cs in
      let l = linked_to consecutive d cs in
      elim (Bool-cases (consecutive c d)) [
        | inr h ↦ (
          ap (λ b. concat (map collapse_number_run (join_run b c (group_by consecutive (d ∷ cs)))))
                h
              ∙ (ap (λ gs. concat (map collapse_number_run (join_run false c gs))) e
                  ∙ (ap (λ x. set_delim layout c ∷ concat (map collapse_number_run x)) (sym e)
                      ∙ (ap (λ x. set_delim layout c ∷ x) apart
                          ∙ ap (λ b. mark false b l c ∷ marks b (d ∷ cs)) (sym h)))),
          ap (λ b. in_run (join_run b c (group_by consecutive (d ∷ cs)))) h
              ∙ (ap (λ gs. in_run (join_run false c gs)) e
                  ∙ (ap (λ x. set_delim after_collapse c ∷ concat (map collapse_number_run x))
                        (sym e)
                      ∙ (ap (λ x. set_delim after_collapse c ∷ x) apart
                          ∙ ap (λ b. mark true b l c ∷ marks b (d ∷ cs)) (sym h)))),
        )
        | inl h ↦ (
          ap (λ b. concat (map collapse_number_run (join_run b c (group_by consecutive (d ∷ cs)))))
                h
              ∙ (ap (λ gs. concat (map collapse_number_run (join_run true c gs))) e
                  ∙ (run_head c d r rs
                      ∙ (ap (λ x. mark false true (not (is_empty r)) c ∷ in_run x) (sym e)
                          ∙ (ap (λ b. mark false true b c ∷ in_run (group_by consecutive (d ∷ cs)))
                                (sym more)
                              ∙ (ap (λ x. mark false true l c ∷ x) inside
                                  ∙ ap (λ b. mark false b l c ∷ marks b (d ∷ cs)) (sym h)))))),
          ap (λ b. in_run (join_run b c (group_by consecutive (d ∷ cs)))) h
              ∙ (ap (λ gs. in_run (join_run true c gs)) e
                  ∙ (ap (λ x. hide c ∷ in_run x) (sym e)
                      ∙ (ap (λ x. hide c ∷ x) inside
                          ∙ ap (λ b. mark true b l c ∷ marks b (d ∷ cs)) (sym h)))),
        )
      ]

  -- Collapsing by citation numbers, run by run, is the one pass that hides a cite between two that
  -- it is consecutive with, and delimits the others by whether they are joined to the cites before
  -- and after.
  pub collapse_numbers-marks :
      (cites : List (CiteInCluster G)) → collapse_numbers cites ≡ marks false cites
  unfolding collapse_numbers
  collapse_numbers-marks [] = refl
  collapse_numbers-marks (c ∷ cs) = (marks-runs c cs).0
