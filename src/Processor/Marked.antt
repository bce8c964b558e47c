-- ===== src/Processor/Marked.antt =====
-- `preview_citation_cluster` of crates/citeproc/src/processor.rs with a new order of the document:
-- what is taken back, and what is not.
use mathlib.Core.Path.{subst}
use citeproc_rs.Base.{
  false, none, some, inl, inr, refl, [], ◌∷◌, ◌++◌, ◌≡◌, ◌∙◌, ◌==◌, if◌then◌else◌, true, arith, ℕ,
  List, Option, ap, map, sym,
}
use citeproc_rs.Base.Sets.{contains, Distinct}
use citeproc_rs.Base.Counts.{contains-count}
use citeproc_rs.Base.Texts.{Text, unwrap_or}
use citeproc_rs.ClusterOrder.{
  ClusterPosition, Order, Result-cases, ok, place_all, start, finish, set_cluster_order,
}
use citeproc_rs.ClusterOrder.Monotone.{place_all-ids}
use citeproc_rs.Processor.Clusters.{
  Clusters, set_order, order_inputs, with_order, set_cluster_cites, set_cluster_ids,
  insert_cites_only, intern_cites,
}
use citeproc_rs.Processor.Placed.{write_back-append}
use citeproc_rs.Processor.Log.{logged, place_all-undone}
use citeproc_rs.Processor.Restored.{insert_cites_only-present}
use citeproc_rs.Processor.Preview.{
  ClusterState, write_back, count_positions, marked_state, preview_init, preview_marked_init,
  mark_with_zero, failed, did_not_supply_zero_position, previewed, preview_citation_cluster,
  preview_rest, restore_cluster_state, restore_one, restore_positions, save_cluster_state, relevant,
}

-- what a read finds after a preview with the order: the ids, modes and cites as before, but not the
-- numbers that the log does not have
pub record TakenBack (preview_id : ℕ) (ps : List ClusterPosition) (st : Clusters) (after : Clusters)
    : Type 0 where
  pub same_ids : after.cluster_ids ≡ st.cluster_ids
  pub same_mode : (k : ℕ) → after.cluster_mode k ≡ st.cluster_mode k
  pub same_cites : (k : ℕ) → (preview_id == k) ≡ false → after.cluster_cites k ≡ st.cluster_cites k
  pub numbers :
      (k : ℕ)
      → (preview_id == k) ≡ false
      → after.cluster_note_number k ≡ (
          if logged st.cluster_ids false ps k
          then st.cluster_note_number k
          else (set_order ps st).0.cluster_note_number k)

-- what is saved where no one cluster is replaced
abbrev whole_document : Clusters → ClusterState
whole_document st = record { saved_ids = st.cluster_ids; relevant_one = none; old_positions = none }

-- the state in which the preview is rendered
abbrev ordered : Clusters → Order → Clusters
ordered st order = record st { cluster_ids = order.ids; cluster_note_number = order.numbers }

set_order-ok :
    (ps : List ClusterPosition) (st : Clusters) (order : Order)
    → place_all st.cluster_ids ps (start st.cluster_note_number) ≡ ok order
    → (set_order ps st).0 ≡ ordered st order
unfolding set_order order_inputs with_order set_cluster_order finish
set_order-ok ps st order h = ap (λ r. with_order st (finish (order_inputs st) r).0) h

-- an order that is taken can be walked through
set_order-placed :
    (ps : List ClusterPosition) (st : Clusters)
    → (set_order ps st).1 ≡ none
    → (order : Order) × (place_all st.cluster_ids ps (start st.cluster_note_number) ≡ ok order)
unfolding set_order order_inputs set_cluster_order finish
set_order-placed ps st h =
    elim (Result-cases (place_all st.cluster_ids ps (start st.cluster_note_number))) [
      | inl found ↦ found
      | inr (n, s, e) ↦
          let bad : some n ≡ none = sym (ap (λ r. (finish (order_inputs st) r).1) e) ∙ h in
          absurd (cc bad)
    ]

count_positions-contains :
    (id : ℕ) (ps : List ClusterPosition)
    → count_positions id ps ≡ 1
    → contains id (map (λ p. p.id) ps) ≡ true
unfolding count_positions
count_positions-contains id ps h = ground (arith, contains-count id (map (λ p. p.id) ps), h)

module _ (preview_id : ℕ) (ps : List ClusterPosition) (st : Clusters) (order : Order)
    (placed : place_all st.cluster_ids ps (start st.cluster_note_number) ≡ ok order) where
  restore-TakenBack :
      (ids : List ℕ)
      → Distinct (map (λ p. p.id) ps)
      → TakenBack preview_id ps st (
          restore_cluster_state
            (record (whole_document st) {
              old_positions = some (order.mods ++ (preview_id, none) ∷ []);
            })
            (set_cluster_cites preview_id ids (ordered st order)))
  unfolding restore_cluster_state restore_one restore_positions set_cluster_ids set_cluster_cites
      write_back
  restore-TakenBack ids distinct = record {
    same_ids = refl;
    same_mode = λ k. refl;
    same_cites = λ k other. ground (arith, other);
    numbers = λ k other.
        write_back-append order.mods preview_id none order.numbers k
        ∙ (ground (arith, other)
            ∙ (place_all-undone st.cluster_ids order.numbers ps (start st.cluster_note_number) order
                  distinct placed k
                ∙ ap
                    (λ s.
                      if logged st.cluster_ids false ps k
                      then st.cluster_note_number k
                      else s.cluster_note_number k)
                    (sym (set_order-ok ps st order placed))));
  }

  preview_init-marked :
      (intern : Text → ℕ)
      → count_positions preview_id ps ≡ 1
      → preview_init intern preview_id (mark_with_zero ps) st
        ≡ marked_state preview_id (whole_document st) st (ok order)
  unfolding preview_init preview_marked_init save_cluster_state relevant
  preview_init-marked intern one =
      let found : (count_positions preview_id ps == 1) ≡ true = ground (arith, one) in
      ap
        (λ b.
          if b
          then marked_state preview_id (whole_document st) st
              (place_all st.cluster_ids ps (start st.cluster_note_number))
          else (st, failed did_not_supply_zero_position))
        found
      ∙ ap (marked_state preview_id (whole_document st) st) placed

  ordered-contains :
      count_positions preview_id ps ≡ 1 → contains preview_id (ordered st order).cluster_ids ≡ true
  ordered-contains one =
      ap (contains preview_id)
        (place_all-ids st.cluster_ids ps (start st.cluster_note_number) order placed)
      ∙ count_positions-contains preview_id ps one

module _ {C F O : Type 0} (cite : ℕ → ℕ → C → ℕ) (built : Clusters → ℕ → F → O) (intern : Text → ℕ)
    (preview_id : ℕ) (own : F) (cites : List C) (format : Option F) where
  -- A preview at a place in a new order of distinct clusters, with the preview cluster in it once and
  -- the notes in order, gives the output of the preview cluster in that order with the cites given.
  -- Afterwards the document has its ids, modes and other cites as before. A number is as before where
  -- the log has it; every other cluster of the new order keeps the number it got for the preview.
  pub preview_citation_cluster-marked :
      (ps : List ClusterPosition) (st : Clusters)
      → count_positions preview_id ps ≡ 1
      → Distinct (map (λ p. p.id) ps)
      → (set_order ps st).1 ≡ none
      → TakenBack preview_id ps st
          (preview_citation_cluster cite built intern preview_id own cites
            (mark_with_zero ps)
            format
            st).0
        × ((preview_citation_cluster cite built intern preview_id own cites
              (mark_with_zero ps)
              format
              st).1
            ≡ previewed (
                built
                  (insert_cites_only cite preview_id cites (set_order ps st).0)
                  preview_id
                  (unwrap_or own format)))
  unfolding preview_citation_cluster preview_rest marked_state set_cluster_ids
  preview_citation_cluster-marked ps st one distinct taken =
      let (order, placed) = set_order-placed ps st taken in
      let rest = preview_rest cite built cites (unwrap_or own format) in
      let init = ap rest (preview_init-marked preview_id ps st order placed intern one) in
      let change =
        insert_cites_only-present cite preview_id cites (ordered st order)
          (ordered-contains preview_id ps st order placed one) in
      let state = record (whole_document st) {
        old_positions = some (order.mods ++ (preview_id, none) ∷ []);
      } in
      (
        subst (λ r. TakenBack preview_id ps st (r.0)) (sym init)
            (subst (λ s. TakenBack preview_id ps st (restore_cluster_state state s)) (sym change)
              (restore-TakenBack preview_id ps st order placed
                (intern_cites cite preview_id 0 cites) distinct)),
        ap (λ r. r.1) init
            ∙ ap
                (λ s. previewed (
                  built (insert_cites_only cite preview_id cites s) preview_id
                    (unwrap_or own format)))
                (sym (set_order-ok ps st order placed)),
      )
