-- ===== src/Processor/Clusters.antt =====
-- The inputs of crates/db/src/cite.rs that say which clusters a document has, and the operations of
-- crates/citeproc/src/processor.rs that write them. The interning of cites is a parameter.
use citeproc_rs.Base.{
  none, some, [], ◌∷◌, ◌++◌, ℕ, if◌then◌else◌, List, Option, ◌==◌, ◌%◌, map, ◌^◌, ◌+◌,
}
use citeproc_rs.Base.Map.{Map, insert}
use citeproc_rs.Base.Sets.{contains}
use citeproc_rs.ClusterNumber.{ClusterNumber}
use citeproc_rs.ClusterOrder.{ClusterPosition, Inputs}
use citeproc_rs.ClusterOrder
use citeproc_rs.Layout.Cluster.{ClusterMode}

pub record Clusters : Type 0 where
  pub cluster_ids : List ℕ
  -- the input that holds an option; it is set for every cluster of `cluster_ids`, since whatever puts
  -- a cluster there sets its number
  pub cluster_note_number : Map ClusterNumber
  -- `none` until the input is set; reading it before that is a panic
  pub cluster_cites : Map (List ℕ)
  pub cluster_mode : Map (Option ClusterMode)

-- a cluster as the caller gives it
pub record Cluster (C : Type 0) : Type 0 where
  pub id : ℕ
  pub cites : List C
  pub mode : Option ClusterMode

-- a write of an input that holds an option
abbrev pub store {ℓ} : {V : Type ℓ} → ℕ → Option V → Map V → Map V
store k o m j = if k == j then o else m j

unfoldable pub set_cluster_cites : ℕ → List ℕ → Clusters → Clusters
set_cluster_cites id ids st = record st { cluster_cites = insert id ids st.cluster_cites }

unfoldable pub set_cluster_note_number : ℕ → Option ClusterNumber → Clusters → Clusters
set_cluster_note_number id n st = record st {
  cluster_note_number = store id n st.cluster_note_number;
}

unfoldable pub set_cluster_mode : ℕ → Option ClusterMode → Clusters → Clusters
set_cluster_mode id mode st = record st { cluster_mode = insert id mode st.cluster_mode }

unfoldable pub set_cluster_ids : List ℕ → Clusters → Clusters
set_cluster_ids ids st = record st { cluster_ids = ids }

-- the ids without one
unfoldable pub without : ℕ → List ℕ → List ℕ
without id [] = []
without id (j ∷ js) = let rest = without id js in if j == id then rest else j ∷ rest

unfoldable pub remove_cluster : ℕ → Clusters → Clusters
unfolding set_cluster_cites set_cluster_note_number set_cluster_mode set_cluster_ids without
remove_cluster id st =
    let cleared =
      set_cluster_mode id none (set_cluster_note_number id none (set_cluster_cites id [] st)) in
    set_cluster_ids (without id cleared.cluster_ids) cleared

-- a cluster that the document did not have, as the first part of `insert_cites_only`
unfoldable pub add_cluster : ℕ → Clusters → Clusters
unfolding set_cluster_note_number set_cluster_mode set_cluster_ids
add_cluster id st =
    if contains id st.cluster_ids
    then st
    else set_cluster_mode id none
        (set_cluster_note_number id none (set_cluster_ids (st.cluster_ids ++ id ∷ []) st))

module _ {C : Type 0} (cite : ℕ → ℕ → C → ℕ) where
  -- `CiteData::RealCite`, by the cluster and the index of the cite in it
  unfoldable pub intern_cites : ℕ → ℕ → List C → List ℕ
  intern_cites cluster index [] = []
  intern_cites cluster index (c ∷ cs) =
      cite cluster (index % 2 ^ 32) c ∷ intern_cites cluster (index + 1) cs

  unfoldable pub insert_cites_only : ℕ → List C → Clusters → Clusters
  unfolding add_cluster set_cluster_cites intern_cites
  insert_cites_only id cites st = set_cluster_cites id (intern_cites id 0 cites) (add_cluster id st)

  unfoldable pub insert_cluster : Cluster C → Clusters → Clusters
  unfolding insert_cites_only set_cluster_mode
  insert_cluster c st = set_cluster_mode c.id c.mode (insert_cites_only c.id c.cites st)

  -- one cluster of `init_clusters`
  unfoldable pub init_cluster : Cluster C → Clusters → Clusters
  unfolding set_cluster_cites intern_cites set_cluster_note_number set_cluster_mode
  init_cluster c st =
      set_cluster_mode c.id c.mode (
        set_cluster_note_number c.id none (set_cluster_cites c.id (intern_cites c.id 0 c.cites) st))

  unfoldable pub init_each : List (Cluster C) → Clusters → Clusters
  unfolding init_cluster
  init_each [] st = st
  init_each (c ∷ cs) st = init_each cs (init_cluster c st)

  unfoldable pub init_clusters : List (Cluster C) → Clusters → Clusters
  unfolding init_each set_cluster_ids
  init_clusters cs st = set_cluster_ids (map (λ c. c.id) cs) (init_each cs st)

-- the inputs that `set_cluster_order` writes
unfoldable pub order_inputs : Clusters → Inputs
order_inputs st = record {
  cluster_note_number = st.cluster_note_number;
  cluster_ids = st.cluster_ids;
}

unfoldable pub with_order : Clusters → Inputs → Clusters
with_order st db = record st {
  cluster_ids = db.cluster_ids;
  cluster_note_number = db.cluster_note_number;
}

-- `set_cluster_order`, with the note number of the error
unfoldable pub set_order : List ClusterPosition → Clusters → Clusters × Option ℕ
unfolding order_inputs with_order ClusterOrder.set_cluster_order
set_order ps st =
    let result = ClusterOrder.set_cluster_order ps (order_inputs st) in
    (with_order st (result.0), result.1)

module _ {O : Type 0} (built_cluster : Clusters → ℕ → O) where
  -- no output for a cluster with no place in the document; the number is an input that is set
  unfoldable pub get_cluster : Clusters → ℕ → Option O
  get_cluster st id = elim (st.cluster_note_number id) [
    | none ↦ none
    | some _ ↦ some (built_cluster st id)
  ]

  -- the loop of `all_clusters` over the ids
  unfoldable pub collect_outputs : Clusters → List ℕ → Map O → Map O
  unfolding get_cluster
  collect_outputs st [] m = m
  collect_outputs st (id ∷ ids) m =
      collect_outputs st ids (elim (get_cluster st id) [ none ↦ m | some o ↦ insert id o m ])

  unfoldable pub all_clusters : Clusters → Map O
  unfolding collect_outputs
  all_clusters st = collect_outputs st st.cluster_ids (λ k. none)
