-- ===== src/Processor/Tests.antt =====
-- Previews and edits of a document of three clusters.
use citeproc_rs.Base.{◌≡◌, none, some, refl, [], ◌∷◌, ℕ, List, Option}
use citeproc_rs.Base.Map.{empty, insert}
use citeproc_rs.ClusterNumber.{ClusterNumber, note, in_text, multi}
use citeproc_rs.ClusterOrder.{ClusterPosition, place}
use citeproc_rs.Processor.Clusters.{Clusters, Cluster, set_order, insert_cites_only}
use citeproc_rs.Processor.Preview.{
  preview_citation_cluster, replace_cluster, mark_with_zero, previewed, panicked, count_positions,
}
use citeproc_rs.Processor.Restored.{Same, preview_citation_cluster-replace}
use citeproc_rs.Processor.Marked.{TakenBack, preview_citation_cluster-marked}
use citeproc_rs.Processor.Edits.{
  Allowed, init, insert_one, remove, reorder, WellFormed, Reaches, here, after, apply_edit,
  Reaches-WellFormed, all_have_cites,
}

-- the cluster of previews
abbrev zero_id : ℕ
zero_id = 9

-- a document of three clusters
abbrev document : Clusters
document = record {
  cluster_ids = 1 ∷ 2 ∷ 3 ∷ [];
  cluster_note_number =
      insert 1 (note (multi 1 0)) (insert 2 (note (multi 2 0)) (insert 3 (note (multi 3 0)) empty));
  cluster_cites = insert 1 (11 ∷ []) (insert 2 (12 ∷ []) (insert 3 (13 ∷ []) empty));
  cluster_mode = insert 1 none (insert 2 none (insert 3 none (insert zero_id none empty)));
}

abbrev cite_id : ℕ → ℕ → ℕ → ℕ
cite_id cluster index c = c

-- what a rendering could read: the cites of the cluster and its number
abbrev rendered : Clusters → ℕ → ℕ → Option (List ℕ) × Option ClusterNumber
rendered st id format = (st.cluster_cites id, st.cluster_note_number id)

abbrev new_order : List ClusterPosition
new_order =
    record { id = 9; note_of = some 1 }
    ∷ record { id = 1; note_of = some 2 }
    ∷ record { id = 2; note_of = none }
    ∷ record { id = 3; note_of = some 3 }
    ∷ []

preview_citation_cluster-replace_example :
    Same document
      (preview_citation_cluster cite_id rendered
        (λ name. 0)
        zero_id
        0
        (21 ∷ [])
        (replace_cluster 2)
        none
        document).0
    × ((preview_citation_cluster cite_id rendered
          (λ name. 0)
          zero_id
          0
          (21 ∷ [])
          (replace_cluster 2)
          none
          document).1
        ≡ previewed (rendered (insert_cites_only cite_id 2 (21 ∷ []) document) 2 0))
preview_citation_cluster-replace_example =
    preview_citation_cluster-replace cite_id rendered (λ name. 0) zero_id 0 (21 ∷ []) none 2
      document refl refl refl

-- A cluster with a place in the document that was never inserted has no inputs to save.
never_inserted :
    (preview_citation_cluster cite_id rendered
      (λ name. 0)
      zero_id
      0
      (21 ∷ [])
      (replace_cluster 4)
      none
      (set_order (record { id = 4; note_of = none } ∷ []) document).0).1
    ≡ panicked
unfolding preview_citation_cluster set_order place
never_inserted = refl

preview_citation_cluster-marked_example :
    TakenBack zero_id new_order document
      (preview_citation_cluster cite_id rendered
        (λ name. 0)
        zero_id
        0
        (21 ∷ [])
        (mark_with_zero new_order)
        none
        document).0
    × ((preview_citation_cluster cite_id rendered
          (λ name. 0)
          zero_id
          0
          (21 ∷ [])
          (mark_with_zero new_order)
          none
          document).1
        ≡ previewed (
            rendered
              (insert_cites_only cite_id zero_id (21 ∷ []) (set_order new_order document).0)
              zero_id
              0))
preview_citation_cluster-marked_example =
    preview_citation_cluster-marked cite_id rendered (λ name. 0) zero_id 0 (21 ∷ []) none new_order
      document (unfold count_positions in refl) (refl, (refl, (refl, (refl, tt))))
      (unfold set_order place in refl)

-- The preview leaves the second cluster in the text, and the numbers that the log has as before.
numbers_after :
    let after_preview =
      (preview_citation_cluster cite_id rendered
        (λ name. 0)
        zero_id
        0
        (21 ∷ [])
        (mark_with_zero new_order)
        none
        document).0 in
    (after_preview.cluster_note_number 1 ≡ some (note (multi 1 0)))
    × ((after_preview.cluster_note_number 2 ≡ some (in_text 1))
        × (after_preview.cluster_note_number 3 ≡ some (note (multi 3 0))))
unfolding preview_citation_cluster place
numbers_after = (refl, (refl, refl))

abbrev blank : Clusters
blank = record {
  cluster_ids = [];
  cluster_note_number = empty;
  cluster_cites = empty;
  cluster_mode = empty;
}

blank-WellFormed : WellFormed blank
blank-WellFormed = record { distinct = tt; cited = λ k h. absurd (cc h) }

abbrev cluster : ℕ → Cluster ℕ
cluster id = record { id = id; cites = 5 ∷ []; mode = none }

abbrev order_of_two : List ClusterPosition
order_of_two = record { id = 2; note_of = none } ∷ record { id = 1; note_of = none } ∷ []

abbrev edited : Clusters
edited = apply_edit cite_id (remove 1) (
    apply_edit cite_id (reorder order_of_two) (
      apply_edit cite_id (insert_one (cluster 2))
        (apply_edit cite_id (init (cluster 1 ∷ [])) blank)))

edits : Reaches cite_id blank edited
unfolding Allowed
edits =
    after (remove 1)
      (after (reorder order_of_two)
        (after (insert_one (cluster 2)) (after (init (cluster 1 ∷ [])) here (refl, tt)) tt)
        ((refl, (refl, tt)), unfold apply_edit all_have_cites in refl))
      tt

Reaches-WellFormed_example : WellFormed edited
Reaches-WellFormed_example = Reaches-WellFormed cite_id blank edited blank-WellFormed edits
