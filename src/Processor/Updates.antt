-- ===== src/Processor/Updates.antt =====
-- `compute`, `batched_updates` and `save_and_diff_bibliography` of crates/citeproc/src/processor.rs:
-- what changed in the outputs since the last call. The outputs themselves, which the queries of
-- crates/proc compute, are a record.
use citeproc_rs.Base.{
  false, ℕ, List, [], Option, ◌∷◌, if◌then◌else◌, some, Bool, none, ◌==◌, not, true,
}
use citeproc_rs.Base.Map.{Map, insert}
use citeproc_rs.Base.Texts.{Text, same_text}
use citeproc_rs.CitePositions.{ClusterData}

-- a hash map that is iterated
abbrev pub Entries : Type 0
Entries = List (ℕ × Text)

-- `map.get(k)`
unfoldable pub get_entry : ℕ → Entries → Option Text
get_entry k [] = none
get_entry k ((j, v) ∷ es) = let rest = get_entry k es in if j == k then some v else rest

pub record SavedBib : Type 0 where
  pub sorted_refs : List ℕ
  pub bib_entries : Entries

pub record BibliographyUpdate : Type 0 where
  pub updated_entries : Entries
  pub entry_ids : Option (List ℕ)

pub record UpdateSummary : Type 0 where
  pub clusters : Entries
  pub bibliography : Option BibliographyUpdate

-- the last outputs that the processor has reported
pub record Saved : Type 0 where
  pub last_clusters : Map Text
  pub last_bibliography : SavedBib

-- the outputs of the document as it is now
pub record Outputs : Type 0 where
  pub clusters_cites_sorted : List ClusterData
  pub rendered_cluster : ℕ → Text
  -- whether the style has a bibliography
  pub has_bibliography : Bool
  pub bibliography_map : Entries
  pub bibliography_order : List ℕ

-- `SavedBib::new`
unfoldable pub new_saved_bib : SavedBib
new_saved_bib = record { sorted_refs = []; bib_entries = [] }

-- `and_modify` and `or_insert_with`, by the entry
unfoldable pub entry_diff : ℕ → Text → Option Text → Option (ℕ × Text)
entry_diff id built none = some (id, built)
entry_diff id built (some existing) = if same_text built existing then none else some (id, built)

unfoldable pub upsert_diff : Map Text → ℕ → Text → Map Text × Option (ℕ × Text)
unfolding entry_diff
upsert_diff m id built = (insert id built m, entry_diff id built (m id))

-- one result of the `filter_map`
unfoldable pub keep_diff : Option (ℕ × Text) → Entries → Entries
keep_diff none rest = rest
keep_diff (some d) rest = d ∷ rest

-- the `filter_map` over the clusters
unfoldable pub diff_clusters : (ℕ → Text) → List ClusterData → Map Text → Map Text × Entries
unfolding upsert_diff keep_diff
diff_clusters built [] m = (m, [])
diff_clusters built (c ∷ cs) m =
    let now = upsert_diff m c.id (built c.id) in
    let rest = diff_clusters built cs (now.0) in (rest.0, keep_diff (now.1) (rest.1))

unfoldable pub compute : Outputs → Saved → Saved × Entries
unfolding diff_clusters
compute out saved =
    let result = diff_clusters out.rendered_cluster out.clusters_cites_sorted saved.last_clusters in
    (record saved { last_clusters = result.0 }, result.1)

-- `Some(v) != old_v`
unfoldable pub differs : Text → Option Text → Bool
differs v none = true
differs v (some old) = not (same_text v old)

-- the entries of the first map that the second does not have
unfoldable pub updated_entries_of : Entries → Entries → Entries
unfolding differs get_entry
updated_entries_of [] old = []
updated_entries_of ((k, v) ∷ es) old =
    let rest = updated_entries_of es old in
    if differs v (get_entry k old) then (k, v) ∷ rest else rest

-- `None` where nothing is updated
unfoldable pub unless_empty : Entries → Option (List ℕ) → Option BibliographyUpdate
unless_empty [] none = none
unless_empty entries ids = some (record { updated_entries = entries; entry_ids = ids })

-- the new order, where it is not the old one
unfoldable pub new_order : List ℕ → List ℕ → Option (List ℕ)
unfolding same_text
new_order order old = if same_text order old then none else some order

-- by whether the style has a bibliography
unfoldable pub save_and_diff_with : Bool → Outputs → Saved → Saved × Option BibliographyUpdate
unfolding unless_empty updated_entries_of new_order
save_and_diff_with false out saved = (saved, none)
save_and_diff_with true out saved = (
  record saved {
    last_bibliography = record {
      sorted_refs = out.bibliography_order;
      bib_entries = out.bibliography_map;
    };
  },
  unless_empty (updated_entries_of out.bibliography_map saved.last_bibliography.bib_entries)
      (new_order out.bibliography_order saved.last_bibliography.sorted_refs),
)

unfoldable pub save_and_diff_bibliography : Outputs → Saved → Saved × Option BibliographyUpdate
unfolding save_and_diff_with
save_and_diff_bibliography out saved = save_and_diff_with out.has_bibliography out saved

unfoldable pub batched_updates : Outputs → Saved → Saved × UpdateSummary
unfolding compute save_and_diff_bibliography
batched_updates out saved =
    let delta = compute out saved in
    let bibliography = save_and_diff_bibliography out (delta.0) in
    (bibliography.0, record { clusters = delta.1; bibliography = bibliography.1 })

-- `drain`
unfoldable pub drain : Outputs → Saved → Saved
unfolding compute
drain out saved = (compute out saved).0
