-- ===== src/Processor/Preview.antt =====
-- `preview_citation_cluster` of crates/citeproc/src/processor.rs: the document is changed, the cluster
-- is rendered, and the change is taken back. The interning of cites and of the names of clusters and
-- the rendering are parameters.
use citeproc_rs.Base.{none, some, [], ◌∷◌, ◌++◌, ℕ, if◌then◌else◌, List, Option, ◌==◌, map}
use citeproc_rs.Base.Map.{Map, insert}
use citeproc_rs.Base.Sets.{contains}
use citeproc_rs.Base.Counts.{count}
use citeproc_rs.Base.Texts.{Text, unwrap_or}
use citeproc_rs.ClusterNumber.{ClusterNumber}
use citeproc_rs.ClusterOrder.{ClusterPosition, Result, ok, non_monotonic, place_all, start}
use citeproc_rs.Layout.Cluster.{ClusterMode}
use citeproc_rs.Processor.Clusters.{Clusters, set_cluster_ids, insert_cites_only, store}

pub record OneClusterState : Type 0 where
  pub my_id : ℕ
  pub saved_number : Option ClusterNumber
  pub cites : List ℕ
  pub mode : Option ClusterMode

pub record ClusterState : Type 0 where
  pub saved_ids : List ℕ
  pub relevant_one : Option OneClusterState
  pub old_positions : Option (List (ℕ × Option ClusterNumber))

pub data ReorderingError : Type 0 where
  non_monotonic_note_number : ℕ → ReorderingError
  non_existent_cluster : ℕ → ReorderingError
  did_not_supply_zero_position : ReorderingError

pub data PreviewResult (A : Type 0) : Type 0 where
  previewed : A → PreviewResult A
  failed : ReorderingError → PreviewResult A
  -- a read of an input that was never set
  panicked : PreviewResult A

-- a position with the name of its cluster
pub record NamedPosition : Type 0 where
  pub name : Option Text
  pub note : Option ℕ

pub data PreviewPosition : Type 0 where
  replace_cluster : ℕ → PreviewPosition
  mark_with_zero_str : List NamedPosition → PreviewPosition
  mark_with_zero : List ClusterPosition → PreviewPosition

-- the reads of the inputs, of which a cluster with a place but no cites has none set: a panic
unfoldable pub save_one : Clusters → ℕ → Option OneClusterState
save_one st id = elim (st.cluster_cites id) [
  | none ↦ none
  | some cites ↦ elim (st.cluster_mode id) [
    | none ↦ none
    | some mode ↦ some (record {
      my_id = id;
      saved_number = st.cluster_note_number id;
      cites = cites;
      mode = mode;
    })
  ]
]

-- the cluster, if the document has it, or the panic of its reads
unfoldable pub relevant : Clusters → Option ℕ → Option (Option OneClusterState)
unfolding save_one
relevant st none = some none
relevant st (some id) =
    if contains id st.cluster_ids
    then elim (save_one st id) [ none ↦ none | some one ↦ some (some one) ]
    else some none

unfoldable pub save_cluster_state : Option ℕ → Clusters → Option ClusterState
unfolding relevant
save_cluster_state id st = elim (relevant st id) [
  | none ↦ none
  | some one ↦
      some (record { saved_ids = st.cluster_ids; relevant_one = one; old_positions = none })
]

unfoldable pub restore_one : Option OneClusterState → Clusters → Clusters
restore_one none st = st
restore_one (some one) st = record st {
  cluster_cites = insert one.my_id one.cites st.cluster_cites;
  cluster_note_number = store one.my_id one.saved_number st.cluster_note_number;
  cluster_mode = insert one.my_id one.mode st.cluster_mode;
}

-- the loop over the logged numbers
unfoldable pub write_back : List (ℕ × Option ClusterNumber) → Map ClusterNumber → Map ClusterNumber
write_back [] m = m
write_back ((id, n) ∷ rest) m = write_back rest (store id n m)

unfoldable pub restore_positions : Option (List (ℕ × Option ClusterNumber)) → Clusters → Clusters
unfolding write_back
restore_positions none st = st
restore_positions (some old) st = record st {
  cluster_note_number = write_back old st.cluster_note_number;
}

unfoldable pub restore_cluster_state : ClusterState → Clusters → Clusters
unfolding restore_one restore_positions set_cluster_ids
restore_cluster_state state st =
    set_cluster_ids state.saved_ids
      (restore_positions state.old_positions (restore_one state.relevant_one st))

-- `positions.iter().filter(|pos| pos.id == preview_cluster_id).count()`
unfoldable pub count_positions : ℕ → List ClusterPosition → ℕ
count_positions id ps = count id (map (λ p. p.id) ps)

-- the order that `preview_marked_init` sets, and what it saves of the one before
unfoldable pub marked_state :
    ℕ → ClusterState → Clusters → Result → Clusters × PreviewResult (ℕ × ClusterState)
marked_state preview_id state st (ok order) = (
  record st { cluster_ids = order.ids; cluster_note_number = order.numbers },
  previewed
      (preview_id, record state { old_positions = some (order.mods ++ (preview_id, none) ∷ []) }),
)
marked_state preview_id state st (non_monotonic nn order) =
    (record st { cluster_note_number = order.numbers }, failed (non_monotonic_note_number nn))

unfoldable pub preview_marked_init :
    ℕ → List ClusterPosition → Clusters → Clusters × PreviewResult (ℕ × ClusterState)
unfolding count_positions marked_state place_all save_cluster_state
preview_marked_init preview_id ps st =
    if count_positions preview_id ps == 1
    then elim (save_cluster_state none st) [
      | none ↦ (st, panicked)
      | some state ↦
          marked_state preview_id state st
            (place_all st.cluster_ids ps (start st.cluster_note_number))
    ]
    else (st, failed did_not_supply_zero_position)

unfoldable pub resolve : (Text → ℕ) → ℕ → List NamedPosition → List ClusterPosition
resolve intern preview_id [] = []
resolve intern preview_id (p ∷ ps) =
    record { id = elim p.name [ none ↦ preview_id | some name ↦ intern name ]; note_of = p.note }
    ∷ resolve intern preview_id ps

unfoldable pub preview_init :
    (Text → ℕ) → ℕ → PreviewPosition → Clusters → Clusters × PreviewResult (ℕ × ClusterState)
unfolding save_cluster_state preview_marked_init resolve
preview_init intern preview_id (replace_cluster id) st =
    if contains id st.cluster_ids
    then (
      st,
      elim (save_cluster_state (some id) st) [
        | none ↦ panicked
        | some state ↦ previewed (id, state)
      ],
    )
    else (st, failed (non_existent_cluster id))
preview_init intern preview_id (mark_with_zero_str ps) st =
    preview_marked_init preview_id (resolve intern preview_id ps) st
preview_init intern preview_id (mark_with_zero ps) st = preview_marked_init preview_id ps st

module _ {C F O : Type 0} (cite : ℕ → ℕ → C → ℕ)
    (built_cluster_preview : Clusters → ℕ → F → O) where
  -- an error returns early, with what the call has written so far, and a panic goes on
  unfoldable pub preview_rest :
      List C → F → Clusters × PreviewResult (ℕ × ClusterState) → Clusters × PreviewResult O
  unfolding insert_cites_only restore_cluster_state
  preview_rest cites formatter (st, failed e) = (st, failed e)
  preview_rest cites formatter (st, panicked) = (st, panicked)
  preview_rest cites formatter (st, previewed (id, state)) =
      let changed = insert_cites_only cite id cites st in
      (restore_cluster_state state changed, previewed (built_cluster_preview changed id formatter))

  unfoldable pub preview_citation_cluster :
      (Text → ℕ)
      → ℕ
      → F
      → List C
      → PreviewPosition
      → Option F
      → Clusters
      → Clusters × PreviewResult O
  unfolding preview_init preview_rest
  preview_citation_cluster intern preview_id own cites position format st =
      preview_rest cites (unwrap_or own format) (preview_init intern preview_id position st)
