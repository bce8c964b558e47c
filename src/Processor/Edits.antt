-- ===== src/Processor/Edits.antt =====
-- The edits of a document by crates/citeproc/src/processor.rs keep its list of clusters free of
-- repetitions, and no cluster of the list is without its cites, whose read would panic.
use mathlib.Core.Path.{subst}
use citeproc_rs.Base.{
  none, refl, ◌++◌, ◌≡◌, ◌∙◌, ◌==◌, if◌then◌else◌, true, false, inl, inr, arith, [], ◌∷◌, ℕ, Bool,
  map, List, Bool-cases, not, ◌||◌, is_some, ◌&&◌, ==_iff, ap, sym,
}
use citeproc_rs.Base.Sets.{contains, Distinct}
use citeproc_rs.Base.Counts.{contains-append, Distinct-append}
use citeproc_rs.ClusterOrder.{ClusterPosition}
use citeproc_rs.ClusterOrder.Monotone.{first_decrease, set_cluster_order-outcome}
use citeproc_rs.Processor.Clusters.{
  Clusters, Cluster, set_cluster_cites, set_cluster_note_number, set_cluster_mode, set_cluster_ids,
  without, remove_cluster, add_cluster, intern_cites, insert_cites_only, insert_cluster,
  init_cluster, init_each, init_clusters, set_order, order_inputs, with_order,
}

-- the calls that edit the clusters of a document
pub data Edit (C : Type 0) : Type 0 where
  init : List (Cluster C) → Edit C
  insert_one : Cluster C → Edit C
  insert_cites_of : ℕ → List C → Edit C
  remove : ℕ → Edit C
  reorder : List ClusterPosition → Edit C

unfoldable pub has_cites : Clusters → ℕ → Bool
has_cites st id = is_some (st.cluster_cites id)

unfoldable pub all_have_cites : Clusters → List ℕ → Bool
unfolding has_cites
all_have_cites st [] = true
all_have_cites st (id ∷ ids) = has_cites st id && all_have_cites st ids

-- An initial list has distinct ids, and a new order has distinct clusters that were inserted before.
unfoldable pub Allowed : {C : Type 0} → Edit C → Clusters → Type 0
unfolding all_have_cites
Allowed (init cs) st = Distinct (map (λ c. c.id) cs)
Allowed (reorder ps) st =
    Distinct (map (λ p. p.id) ps) × (all_have_cites st (map (λ p. p.id) ps) ≡ true)
Allowed _ st = Unit

pub record WellFormed (st : Clusters) : Type 0 where
  pub distinct : Distinct st.cluster_ids
  pub cited : (k : ℕ) → contains k st.cluster_ids ≡ true → has_cites st k ≡ true

contains-without :
    (k id : ℕ) (xs : List ℕ) → contains k (without id xs) ≡ (not (id == k) && contains k xs)
unfolding without
contains-without k id [] = ground arith
contains-without k id (x ∷ xs) = ground (arith, contains-without k id xs)

without-Distinct : (id : ℕ) (xs : List ℕ) → Distinct xs → Distinct (without id xs)
unfolding without
without-Distinct id [] d = tt
without-Distinct id (x ∷ xs) (e, d) =
    let rest = without-Distinct id xs d in
    let fresh : contains x (without id xs) ≡ false = contains-without x id xs ∙ ground (arith, e) in
    elim (x == id) as (λ b. Distinct (if b then without id xs else x ∷ without id xs)) [
      | true ↦ rest
      | false ↦ (fresh, rest)
    ]

remove_cluster-WellFormed :
    (id : ℕ) (st : Clusters) → WellFormed st → WellFormed (remove_cluster id st)
unfolding remove_cluster set_cluster_cites set_cluster_note_number set_cluster_mode set_cluster_ids
    has_cites
remove_cluster-WellFormed id st w = record {
  distinct = without-Distinct id st.cluster_ids w.distinct;
  cited = λ k h. ground (arith, h, contains-without k id st.cluster_ids, w.cited k);
}

set_cluster_cites-WellFormed :
    (id : ℕ) (ids : List ℕ) (st : Clusters)
    → Distinct st.cluster_ids
    → ((k : ℕ) → (id == k) ≡ false → contains k st.cluster_ids ≡ true → has_cites st k ≡ true)
    → WellFormed (set_cluster_cites id ids st)
unfolding set_cluster_cites has_cites
set_cluster_cites-WellFormed id ids st d h = record {
  distinct = d;
  cited = λ k c. elim (Bool-cases (id == k)) [
    | inl same ↦ ground (arith, same)
    | inr other ↦ ground (arith, other, h k other c)
  ];
}

-- the state with one cluster more, whose cites are not written yet
abbrev with_new : ℕ → Clusters → Clusters
with_new id st =
    set_cluster_mode id none
      (set_cluster_note_number id none (set_cluster_ids (st.cluster_ids ++ id ∷ []) st))

insert_cites_only-WellFormed :
    {C : Type 0} (cite : ℕ → ℕ → C → ℕ) (id : ℕ) (cites : List C) (st : Clusters)
    → WellFormed st
    → WellFormed (insert_cites_only cite id cites st)
unfolding insert_cites_only add_cluster set_cluster_note_number set_cluster_mode set_cluster_ids
    has_cites
insert_cites_only-WellFormed cite id cites st w =
    let ids = intern_cites cite id 0 cites in
    elim (contains id st.cluster_ids)
        as (λ b.
          contains id st.cluster_ids ≡ b
          → WellFormed (set_cluster_cites id ids (if b then st else with_new id st))) [
            | true ↦
                λ here. set_cluster_cites-WellFormed id ids st w.distinct (λ k other c. w.cited k c)
            | false ↦ λ absent.
                set_cluster_cites-WellFormed id ids (with_new id st)
                  (Distinct-append st.cluster_ids id absent w.distinct)
                  (λ k other c.
                    w.cited k
                      (ground (arith, other, c, contains-append k st.cluster_ids (id ∷ []))))
          ]
      refl

all_have_cites-contains :
    (st : Clusters) (ids : List ℕ) (k : ℕ)
    → all_have_cites st ids ≡ true
    → contains k ids ≡ true
    → has_cites st k ≡ true
unfolding all_have_cites
all_have_cites-contains st [] k h c = cc c
all_have_cites-contains st (id ∷ ids) k h c = elim (Bool-cases (id == k)) [
  | inl same ↦ let at : id ≡ k = (==_iff id k).0 same in ground (arith, ap (has_cites st) at, h)
  | inr other ↦ all_have_cites-contains st ids k (ground (arith, h)) (ground (arith, other, c))
]

-- a later cluster of the initial list does not take the cites of an earlier one away
init_each-has_cites :
    {C : Type 0} (cite : ℕ → ℕ → C → ℕ) (cs : List (Cluster C)) (st : Clusters) (k : ℕ)
    → (contains k (map (λ c. c.id) cs) || has_cites st k) ≡ true
    → has_cites (init_each cite cs st) k ≡ true
unfolding init_each init_cluster set_cluster_cites set_cluster_note_number set_cluster_mode
    has_cites
init_each-has_cites cite [] st k h = ground (arith, h)
init_each-has_cites cite (c ∷ cs) st k h =
    init_each-has_cites cite cs (init_cluster cite c st) k (ground (arith, h))

init_clusters-WellFormed :
    {C : Type 0} (cite : ℕ → ℕ → C → ℕ) (cs : List (Cluster C)) (st : Clusters)
    → Distinct (map (λ c. c.id) cs)
    → WellFormed (init_clusters cite cs st)
unfolding init_clusters set_cluster_ids has_cites
init_clusters-WellFormed cite cs st d = record {
  distinct = d;
  cited = λ k h. init_each-has_cites cite cs st k (ground (arith, h));
}

-- what makes a list fit for the clusters of a document
abbrev Listed : Clusters → List ℕ → Type 0
Listed st xs = Distinct xs × ((k : ℕ) → contains k xs ≡ true → has_cites st k ≡ true)

set_order-WellFormed :
    (ps : List ClusterPosition) (st : Clusters)
    → Distinct (map (λ p. p.id) ps)
    → all_have_cites st (map (λ p. p.id) ps) ≡ true
    → WellFormed st
    → WellFormed (set_order ps st).0
unfolding set_order order_inputs with_order has_cites
set_order-WellFormed ps st d h w =
    let new = map (λ p. p.id) ps in
    let error = is_some (first_decrease none ps) in
    let listed : Listed st (if error then st.cluster_ids else new) =
      elim error as (λ b. Listed st (if b then st.cluster_ids else new)) [
        | true ↦ (w.distinct, w.cited)
        | false ↦ (d, λ k. all_have_cites-contains st new k h)
      ] in
    let now = subst (Listed st) (sym (set_cluster_order-outcome ps (order_inputs st)).1) listed in
    record { distinct = now.0; cited = now.1 }

module _ {C : Type 0} (cite : ℕ → ℕ → C → ℕ) where
  -- one call; an order that is refused gives an error, which is dropped here
  unfoldable pub apply_edit : Edit C → Clusters → Clusters
  unfolding init_clusters insert_cluster insert_cites_only remove_cluster set_order
  apply_edit (init cs) st = init_clusters cite cs st
  apply_edit (insert_one c) st = insert_cluster cite c st
  apply_edit (insert_cites_of id cites) st = insert_cites_only cite id cites st
  apply_edit (remove id) st = remove_cluster id st
  apply_edit (reorder ps) st = (set_order ps st).0

  -- states that a sequence of allowed edits leads to
  pub data Reaches (st : Clusters) : Clusters → Type 0 where
    here : Reaches st st
    after :
        {st' : Clusters} (e : Edit C)
        → Reaches st st'
        → Allowed e st'
        → Reaches st (apply_edit e st')

  apply_edit-WellFormed :
      (e : Edit C) (st : Clusters) → Allowed e st → WellFormed st → WellFormed (apply_edit e st)
  unfolding apply_edit Allowed insert_cluster set_cluster_mode has_cites
  apply_edit-WellFormed (init cs) st a w = init_clusters-WellFormed cite cs st a
  apply_edit-WellFormed (insert_one c) st a w =
      let inserted = insert_cites_only-WellFormed cite c.id c.cites st w in
      record { distinct = inserted.distinct; cited = inserted.cited }
  apply_edit-WellFormed (insert_cites_of id cites) st a w =
      insert_cites_only-WellFormed cite id cites st w
  apply_edit-WellFormed (remove id) st a w = remove_cluster-WellFormed id st w
  apply_edit-WellFormed (reorder ps) st (d, h) w = set_order-WellFormed ps st d h w

  -- In every state that allowed edits lead to from a well-formed one, the clusters of the document
  -- are distinct and each has its cites.
  pub Reaches-WellFormed : (st st' : Clusters) → WellFormed st → Reaches st st' → WellFormed st'
  Reaches-WellFormed st _ w here = w
  Reaches-WellFormed st _ w (after {st'} e r a) =
      apply_edit-WellFormed e st' a (Reaches-WellFormed st st' w r)
