-- ===== src/Processor/Restored.antt =====
-- `preview_citation_cluster` of crates/citeproc/src/processor.rs leaves a document as it was when it
-- replaces the cites of a cluster.
use citeproc_rs.Base.{
  if◌then◌else◌, ◌≡◌, is_some, some_of_is_some, none, some, refl, true, false, inl, inr, arith, ℕ,
  List, ◌==◌, Option, Bool-cases, ap, sym, ==_iff, ◌∙◌,
}
use mathlib.Core.Path.{subst}
use citeproc_rs.Base.Map.{Map, insert}
use citeproc_rs.Base.Sets.{contains}
use citeproc_rs.Base.Texts.{Text, unwrap_or}
use citeproc_rs.Layout.Cluster.{ClusterMode}
use citeproc_rs.Processor.Clusters.{
  Clusters, set_cluster_cites, set_cluster_ids, insert_cites_only, intern_cites, add_cluster, store,
}
use citeproc_rs.Processor.Preview.{
  ClusterState, PreviewResult, previewed, panicked, failed, non_existent_cluster, replace_cluster,
  save_one, relevant, save_cluster_state, restore_one, restore_positions, restore_cluster_state,
  preview_init, preview_rest, preview_citation_cluster,
}

-- two states that no read tells apart
pub record Same (st : Clusters) (st' : Clusters) : Type 0 where
  pub same_ids : st'.cluster_ids ≡ st.cluster_ids
  pub same_number : (k : ℕ) → st'.cluster_note_number k ≡ st.cluster_note_number k
  pub same_cites : (k : ℕ) → st'.cluster_cites k ≡ st.cluster_cites k
  pub same_mode : (k : ℕ) → st'.cluster_mode k ≡ st.cluster_mode k

store-same :
    {V : Type 0} (id : ℕ) (m n : Map V) (v : Option V)
    → m id ≡ v
    → ((k : ℕ) → (id == k) ≡ false → n k ≡ m k)
    → (k : ℕ) → store id v n k ≡ m k
store-same id m n v here h k = elim (Bool-cases (id == k)) [
  | inl same ↦ let at : id ≡ k = (==_iff id k).0 same in ground (arith, ap m at, here, same)
  | inr other ↦ ground (arith, other, h k other)
]

-- the saved state of a cluster that has cites and a mode
unfoldable saved_for : ℕ → List ℕ → Option ClusterMode → Clusters → ClusterState
saved_for id old mode st = record {
  saved_ids = st.cluster_ids;
  relevant_one =
      some
        (record { my_id = id; saved_number = st.cluster_note_number id; cites = old; mode = mode });
  old_positions = none;
}

save_cluster_state-present :
    (id : ℕ) (old : List ℕ) (mode : Option ClusterMode) (st : Clusters)
    → contains id st.cluster_ids ≡ true
    → st.cluster_cites id ≡ some old
    → st.cluster_mode id ≡ some mode
    → save_cluster_state (some id) st ≡ some (saved_for id old mode st)
unfolding save_cluster_state relevant save_one saved_for
save_cluster_state-present id old mode st here cited moded = ground (arith, here, cited, moded)

preview_init-present :
    (intern : Text → ℕ) (preview_id id : ℕ) (old : List ℕ) (mode : Option ClusterMode)
    (st : Clusters)
    → contains id st.cluster_ids ≡ true
    → st.cluster_cites id ≡ some old
    → st.cluster_mode id ≡ some mode
    → preview_init intern preview_id (replace_cluster id) st
      ≡ (st, previewed (id, saved_for id old mode st))
unfolding preview_init
preview_init-present intern preview_id id old mode st here cited moded =
    let result : Option ClusterState → PreviewResult (ℕ × ClusterState) =
      λ s. elim s [ none ↦ panicked | some state ↦ previewed (id, state) ] in
    ap
      (λ b.
        if b
        then (st, result (save_cluster_state (some id) st))
        else (st, failed (non_existent_cluster id)))
      here
    ∙ ap (λ s. (st, result s)) (save_cluster_state-present id old mode st here cited moded)

-- what is taken back is what was changed at the one cluster
restore_cluster_state-Same :
    (id : ℕ) (old : List ℕ) (mode : Option ClusterMode) (st : Clusters) (ids : List ℕ)
    → st.cluster_cites id ≡ some old
    → st.cluster_mode id ≡ some mode
    → Same st (restore_cluster_state (saved_for id old mode st) (set_cluster_cites id ids st))
unfolding restore_cluster_state restore_one restore_positions set_cluster_ids set_cluster_cites
    saved_for
restore_cluster_state-Same id old mode st ids cited moded = record {
  same_ids = refl;
  same_number =
      store-same id st.cluster_note_number st.cluster_note_number (st.cluster_note_number id) refl
        (λ k h. refl);
  same_cites =
      store-same id st.cluster_cites (insert id ids st.cluster_cites) (some old) cited
        (λ k h. ground (arith, h));
  same_mode = store-same id st.cluster_mode st.cluster_mode (some mode) moded (λ k h. refl);
}

module _ {C : Type 0} (cite : ℕ → ℕ → C → ℕ) where
  -- new cites for a cluster that the document has
  pub insert_cites_only-present :
      (id : ℕ) (cites : List C) (st : Clusters)
      → contains id st.cluster_ids ≡ true
      → insert_cites_only cite id cites st ≡ set_cluster_cites id (intern_cites cite id 0 cites) st
  unfolding insert_cites_only add_cluster
  insert_cites_only-present id cites st here =
      ap (set_cluster_cites id (intern_cites cite id 0 cites)) (ground (arith, here))

  module _ {F O : Type 0} (built : Clusters → ℕ → F → O) (intern : Text → ℕ) (preview_id : ℕ)
      (own : F) (cites : List C) (format : Option F) where
    -- Replacing the cites of a cluster of the document whose cites and mode are set for a preview
    -- gives the output that the cluster has with those cites in its place in the document, and
    -- afterwards every input reads as it did before.
    pub preview_citation_cluster-replace :
        (id : ℕ) (st : Clusters)
        → contains id st.cluster_ids ≡ true
        → is_some (st.cluster_cites id) ≡ true
        → is_some (st.cluster_mode id) ≡ true
        → Same st
            (preview_citation_cluster cite built intern preview_id own cites
              (replace_cluster id)
              format
              st).0
          × ((preview_citation_cluster cite built intern preview_id own cites
                (replace_cluster id)
                format
                st).1
              ≡ previewed (built (insert_cites_only cite id cites st) id (unwrap_or own format)))
    unfolding preview_citation_cluster preview_rest
    preview_citation_cluster-replace id st here has_cites has_mode =
        let (old, cited) = some_of_is_some (st.cluster_cites id) has_cites in
        let (mode, moded) = some_of_is_some (st.cluster_mode id) has_mode in
        let rest = preview_rest cite built cites (unwrap_or own format) in
        let init =
          ap rest (preview_init-present intern preview_id id old mode st here cited moded) in
        let change = insert_cites_only-present id cites st here in
        (
          subst (λ r. Same st (r.0)) (sym init)
              (subst (λ changed. Same st (restore_cluster_state (saved_for id old mode st) changed))
                (sym change)
                (restore_cluster_state-Same id old mode st (intern_cites cite id 0 cites) cited
                  moded)),
          ap (λ r. r.1) init,
        )
