-- ===== src/Sorting/Document.antt =====
-- The queries of crates/db/src/cite.rs and of crates/proc/src/sort.rs on the clusters and cites of a
-- document: which references are cited and numbered, and the clusters and cites in their order. An
-- index set is a list in the order of insertion.
use citeproc_rs.Base.{
  ℕ, Bool, true, false, Option, none, some, List, [], ◌∷◌, ◌++◌, ◌%◌, ◌^◌, Ordering, if◌then◌else◌,
}
use citeproc_rs.Base.Map.{Map}
use citeproc_rs.Base.Sets.{contains}
use citeproc_rs.Base.Texts.{Text}
use citeproc_rs.ClusterNumber.{ClusterNumber, outside_flow, cmp}
use citeproc_rs.CitePositions.{ClusterData}
use citeproc_rs.Layout.Cluster.{ClusterMode, author_only}
use citeproc_rs.YearSuffixes.{BibNumber}
use citeproc_rs.Sorting.{Comparison, Demoting, cmp_keys}
use citeproc_rs.Sorting.Keys.{citation, Context, SortKey, ctx_sort_items}
use citeproc_rs.Sorting.Refs.{Sorter}

pub data Uncited : Type 0 where
  all_uncited : Uncited
  enumerated : List ℕ → Uncited

-- the inputs of the database
pub record Document : Type 0 where
  pub all_keys : List ℕ
  pub uncited_keys : Uncited
  pub cluster_ids : List ℕ
  pub cluster_note_number : ℕ → Option ClusterNumber
  pub cluster_mode : ℕ → Option ClusterMode
  pub cluster_cites : ℕ → List ℕ
  -- the reference of a cite
  pub ref_id : ℕ → ℕ

-- `IndexSet::insert`
unfoldable pub index_insert : ℕ → List ℕ → List ℕ
index_insert x s = if contains x s then s else s ++ x ∷ []

-- `IndexSet::extend`
unfoldable pub index_extend : List ℕ → List ℕ → List ℕ
unfolding index_insert
index_extend [] s = s
index_extend (x ∷ xs) s = index_extend xs (index_insert x s)

-- `AuthorOnly` puts a cluster outside the flow
unfoldable pub number_in_mode : Option ClusterMode → ClusterNumber → ClusterNumber
number_in_mode (some author_only) number = outside_flow
number_in_mode _ number = number

unfoldable pub with_number : Document → ℕ → List ℕ → Option ClusterNumber → Option ClusterData
unfolding number_in_mode
with_number db id cites none = none
with_number db id cites (some number) =
    some (record { id = id; number = number_in_mode (db.cluster_mode id) number; cites = cites })

unfoldable pub get_cluster_data : Document → ℕ → Option ClusterData
unfolding with_number
get_cluster_data db id = with_number db id (db.cluster_cites id) (db.cluster_note_number id)

-- `filter_map`
unfoldable pub filter_clusters : (ℕ → Option ClusterData) → List ℕ → List ClusterData
filter_clusters f [] = []
filter_clusters f (id ∷ ids) =
    let rest = filter_clusters f ids in
    elim (f id) as (λ _. List ClusterData) [ none ↦ rest | some c ↦ c ∷ rest ]

abbrev pub not_after : Ordering → Bool
not_after Ordering.gt = false
not_after _ = true

-- `sort_by_key(|cluster| cluster.number)`
unfoldable pub insert_cluster : ClusterData → List ClusterData → List ClusterData
unfolding cmp
insert_cluster c [] = c ∷ []
insert_cluster c (d ∷ ds) =
    let rest = insert_cluster c ds in
    if not_after (cmp c.number d.number) then c ∷ d ∷ ds else d ∷ rest

unfoldable pub sort_clusters : List ClusterData → List ClusterData
unfolding insert_cluster
sort_clusters [] = []
sort_clusters (c ∷ cs) = insert_cluster c (sort_clusters cs)

unfoldable pub clusters_sorted : Document → List ClusterData
unfolding get_cluster_data filter_clusters sort_clusters
clusters_sorted db = sort_clusters (filter_clusters (get_cluster_data db) db.cluster_ids)

unfoldable pub cites_in_order : List ClusterData → List ℕ
cites_in_order [] = []
cites_in_order (c ∷ cs) = c.cites ++ cites_in_order cs

unfoldable pub all_cite_ids : Document → List ℕ
unfolding clusters_sorted cites_in_order
all_cite_ids db = cites_in_order (clusters_sorted db)

-- the loop of `cited_keys`
unfoldable pub insert_known : List ℕ → (ℕ → ℕ) → List ℕ → List ℕ → List ℕ
unfolding index_insert
insert_known known ref_id [] keys = keys
insert_known known ref_id (id ∷ ids) keys =
    insert_known known ref_id ids
      (if contains (ref_id id) known then index_insert (ref_id id) keys else keys)

unfoldable pub cited_keys : Document → List ℕ
unfolding all_cite_ids insert_known
cited_keys db = insert_known db.all_keys db.ref_id (all_cite_ids db) []

-- `intersection`, in the order of the first set
unfoldable pub common : List ℕ → List ℕ → List ℕ
common [] other = []
common (x ∷ xs) other = let rest = common xs other in if contains x other then x ∷ rest else rest

unfoldable pub participants : List ℕ → List ℕ → Uncited → List ℕ
unfolding index_extend common
participants all cited all_uncited = index_extend all cited
participants all cited (enumerated specific) = index_extend (common specific all) cited

unfoldable pub disamb_participants : Document → List ℕ
unfolding participants cited_keys
disamb_participants db = participants db.all_keys (cited_keys db) db.uncited_keys

-- what the sorting of the cites of a cluster reads
pub record CiteSort (V : Type 0) (N : Type 0) : Type 0 where
  -- the sort keys of the citation
  pub citation_sort : Option (List SortKey)
  -- the references that exist
  pub has_reference : ℕ → Bool
  -- the numbers of `sorted_refs`, and how many there are
  pub citation_numbers : Map BibNumber
  pub numbered : ℕ
  -- `with_cite_context`
  pub cite_context : ℕ → Context V N
  pub comparison : Comparison Text V N
  pub sort_by : Sorter

-- the cluster with its cites sorted; the outer Option is about panics
unfoldable pub with_cites : ℕ → ClusterNumber → Option (List ℕ) → Option (Option ClusterData)
with_cites id number none = none
with_cites id number (some cites) = some (some (record { id = id; number = number; cites = cites }))

-- `filter_map`, where none of the answers is a panic
unfoldable pub push_cluster :
    Option (Option ClusterData) → Option (List ClusterData) → Option (List ClusterData)
push_cluster none rest = none
push_cluster (some c) none = none
push_cluster (some none) (some cs) = some cs
push_cluster (some (some c)) (some cs) = some (c ∷ cs)

-- `sort_by_key` of the clusters that are collected
unfoldable pub sorted_option : Option (List ClusterData) → Option (List ClusterData)
unfolding sort_clusters
sorted_option none = none
sorted_option (some cs) = some (sort_clusters cs)

module _ {V N : Type 0} where
  -- the key of a cite, by its number: none where `expect` fails
  unfoldable pub key_of_number :
      CiteSort V N → List SortKey → ℕ → Option BibNumber → Option (Option (Demoting Text V N))
  unfolding ctx_sort_items
  key_of_number db keys id none = none
  key_of_number db keys id (some a_cnum) =
      some (some (ctx_sort_items (db.cite_context id) citation a_cnum keys (db.numbered % 2 ^ 32)))

  unfoldable pub cite_key :
      CiteSort V N → Document → List SortKey → ℕ → Option (Option (Demoting Text V N))
  unfolding key_of_number
  cite_key db doc keys id =
      if db.has_reference (doc.ref_id id)
      then key_of_number db keys id (db.citation_numbers (doc.ref_id id))
      else some none

  unfoldable pub cmp_known :
      Comparison Text V N
      → Option (Option (Demoting Text V N))
      → Option (Option (Demoting Text V N))
      → Option Ordering
  unfolding cmp_keys
  cmp_known c (some a) (some b) = cmp_keys c a b
  cmp_known c _ _ = none

  unfoldable pub sort_cites :
      CiteSort V N → Document → Option (List SortKey) → List ℕ → Option (List ℕ)
  unfolding cite_key cmp_known
  sort_cites db doc none cites = some cites
  sort_cites db doc (some keys) cites =
      db.sort_by (λ a b. cmp_known db.comparison (cite_key db doc keys a) (cite_key db doc keys b))
        cites

  unfoldable pub cluster_data_sorted : CiteSort V N → Document → ℕ → Option (Option ClusterData)
  unfolding sort_cites with_cites number_in_mode
  cluster_data_sorted db doc id =
      let cites = sort_cites db doc db.citation_sort (doc.cluster_cites id) in
      elim (doc.cluster_note_number id) as (λ _. Option (Option ClusterData)) [
        | none ↦ some none
        | some number ↦ with_cites id (number_in_mode (doc.cluster_mode id) number) cites
      ]

  unfoldable pub collect_clusters : CiteSort V N → Document → List ℕ → Option (List ClusterData)
  unfolding cluster_data_sorted push_cluster
  collect_clusters db doc [] = some []
  collect_clusters db doc (id ∷ ids) =
      push_cluster (cluster_data_sorted db doc id) (collect_clusters db doc ids)

  unfoldable pub clusters_cites_sorted : CiteSort V N → Document → Option (List ClusterData)
  unfolding collect_clusters sort_clusters sorted_option
  clusters_cites_sorted db doc = sorted_option (collect_clusters db doc doc.cluster_ids)

  unfoldable pub bib_number : CiteSort V N → Document → ℕ → Option BibNumber
  bib_number db doc id = db.citation_numbers (doc.ref_id id)
