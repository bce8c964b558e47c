-- ===== src/Collapse/Names/Kept.antt =====
-- Grouping by name loses and repeats no cite.
use citeproc_rs.Base.{
  ℕ, zero, suc, ◌+◌, ◌-◌, true, false, List, [], ◌∷◌, Option, none, some, ◌==◌, ◌≡◌, refl, ap, ◌∙◌,
  arith, if◌then◌else◌, map, length, get_elem?, Option-cases, inl, inr,
}
use citeproc_rs.Base.Runs.{group_by, concat, map-concat, concat-group_by}
use citeproc_rs.Collapse.{
  CiteInCluster, Tree, Partial, CollapseMode, DelimKind, same_name, set_delim, filled,
}
use citeproc_rs.Collapse.Suffixes.{set_last_delim}
use citeproc_rs.Collapse.Names.{
  update, remove, pull, rotate, Seen, Grouping, set_name_number, seen_again, seen_first, name_cite,
  name_cites, start, numbers_names, group_delim, delimit_heads, delimit_run, group_by_name, text_at,
  last_delim_for,
}

module _ {G : Type 0} where
  abbrev id_of : CiteInCluster G → ℕ
  id_of c = c.cite_id

  -- how many cites have an id
  abbrev pub count_id : ℕ → List (CiteInCluster G) → ℕ
  count_id k [] = 0
  count_id k (c ∷ cs) = (if c.cite_id == k then 1 else 0) + count_id k cs

  count_id-map :
      (k : ℕ) (xs ys : List (CiteInCluster G))
      → map id_of xs ≡ map id_of ys
      → count_id k xs ≡ count_id k ys
  count_id-map k [] [] h = refl
  count_id-map k [] (y ∷ ys) h = cc h
  count_id-map k (x ∷ xs) [] h = cc h
  count_id-map k (x ∷ xs) (y ∷ ys) h =
      let first : x.cite_id ≡ y.cite_id = ground (arith, h) in
      let rest : map id_of xs ≡ map id_of ys = ground (arith, h) in
      ground (arith, first, count_id-map k xs ys rest)

  count_id-update :
      (k i : ℕ) (n : Partial ℕ) (cs : List (CiteInCluster G))
      → count_id k (update i (set_name_number n) cs) ≡ count_id k cs
  unfolding set_name_number
  count_id-update k i n [] = refl
  count_id-update k zero n (c ∷ cs) = refl
  count_id-update k (suc i) n (c ∷ cs) = omega (arith, count_id-update k i n cs)

  count_id-remove :
      (k i : ℕ) (cs : List (CiteInCluster G)) (c : CiteInCluster G)
      → get_elem? cs i ≡ some c
      → count_id k cs ≡ (if c.cite_id == k then 1 else 0) + count_id k (remove i cs)
  count_id-remove k i [] c h = cc h
  count_id-remove k zero (d ∷ cs) c h = ground (arith, h)
  count_id-remove k (suc i) (d ∷ cs) c h = omega (arith, count_id-remove k i cs c h)

  count_id-pull : (k n : ℕ) (cs : List (CiteInCluster G)) → count_id k (pull n cs) ≡ count_id k cs
  count_id-pull k n cs = elim (Option-cases (get_elem? cs n)) [
    | inl e ↦ ground (arith, e)
    | inr (c, e) ↦ ground (arith, e, count_id-remove k n cs c e)
  ]

  count_id-rotate :
      (k lo n : ℕ) (cs : List (CiteInCluster G)) → count_id k (rotate lo n cs) ≡ count_id k cs
  count_id-rotate k zero n cs = count_id-pull k n cs
  count_id-rotate k (suc lo) n [] = refl
  count_id-rotate k (suc lo) n (c ∷ cs) = omega (arith, count_id-rotate k lo n cs)

  count_id-seen_again :
      (k : ℕ) (rendered : Option ℕ) (seen : Seen) (ix : ℕ) (st : Grouping G)
      → count_id k (seen_again rendered seen ix st).cites ≡ count_id k st.cites
  unfolding seen_again
  count_id-seen_again k rendered (oix, (local, n)) ix st =
      let cites = update ix (set_name_number n) st.cites in
      let same = count_id-update k ix n st.cites in
      ground (arith, same, count_id-rotate k (oix + 1) (ix - (oix + 1)) cites)

  count_id-name_cite :
      (k : ℕ) (tree : Tree G) (ix : ℕ) (st : Grouping G)
      → count_id k (name_cite tree ix st).cites ≡ count_id k st.cites
  unfolding name_cite seen_first
  count_id-name_cite k tree ix st =
      let rendered = text_at tree (get_elem? st.cites ix) in
      elim (st.same_names rendered)
        as (λ o.
          count_id k
            (elim o as (λ _. Grouping G) [
              | none ↦ seen_first rendered ix st
              | some seen ↦ seen_again rendered seen ix st
            ]).cites
          ≡ count_id k st.cites) [
            | none ↦ count_id-update k ix (filled st.unique_name) st.cites
            | some seen ↦ count_id-seen_again k rendered seen ix st
          ]

  count_id-name_cites :
      (k : ℕ) (tree : Tree G) (n ix : ℕ) (st : Grouping G)
      → count_id k (name_cites tree n ix st).cites ≡ count_id k st.cites
  unfolding name_cites
  count_id-name_cites k tree zero ix st = refl
  count_id-name_cites k tree (suc n) ix st =
      count_id-name_cites k tree n (ix + 1) (name_cite tree ix st) ∙ count_id-name_cite k tree ix st

  ids-set_last_delim :
      (o : Option DelimKind) (cs : List (CiteInCluster G))
      → map id_of (set_last_delim o cs) ≡ map id_of cs
  unfolding set_last_delim
  ids-set_last_delim o [] = refl
  ids-set_last_delim o (c ∷ []) = refl
  ids-set_last_delim o (c ∷ d ∷ cs) = ap (λ l. c.cite_id ∷ l) (ids-set_last_delim o (d ∷ cs))

  ids-delimit_heads : (cs : List (CiteInCluster G)) → map id_of (delimit_heads cs) ≡ map id_of cs
  unfolding delimit_heads group_delim set_delim
  ids-delimit_heads [] = refl
  ids-delimit_heads (c ∷ []) = refl
  ids-delimit_heads (c ∷ d ∷ cs) = ground (arith, ids-delimit_heads (d ∷ cs))

  ids-delimit_run :
      (collapse : Option CollapseMode) (cs : List (CiteInCluster G))
      → map id_of (delimit_run collapse cs) ≡ map id_of cs
  unfolding delimit_run
  ids-delimit_run collapse [] = refl
  ids-delimit_run collapse (c ∷ []) = refl
  ids-delimit_run collapse (c ∷ d ∷ cs) =
      ids-set_last_delim (some (last_delim_for collapse)) (delimit_heads (c ∷ d ∷ cs))
      ∙ ids-delimit_heads (c ∷ d ∷ cs)

  -- Grouping by name loses no cite and repeats none, whatever the mode and the names.
  pub count_id-group_by_name :
      (k : ℕ) (tree : Tree G) (collapse : Option CollapseMode) (cites : List (CiteInCluster G))
      → count_id k (group_by_name tree collapse cites) ≡ count_id k cites
  unfolding group_by_name
  count_id-group_by_name k tree collapse cites =
      let named =
        if numbers_names collapse
        then (name_cites tree (length cites) 0 (start cites)).cites
        else cites in
      count_id-map k (concat (map (delimit_run collapse) (group_by same_name named))) named (
        map-concat id_of (delimit_run collapse) (group_by same_name named)
          (ids-delimit_run collapse)
        ∙ ap (map id_of) (concat-group_by same_name named))
      ∙ (elim (numbers_names collapse)
          as (λ b.
            count_id k (if b then (name_cites tree (length cites) 0 (start cites)).cites else cites)
            ≡ count_id k cites) [
              | true ↦ unfold start in count_id-name_cites k tree (length cites) 0 (start cites)
              | false ↦ refl
            ])
