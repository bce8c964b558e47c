-- ===== src/CitePositions.antt =====
-- `cite_positions` of crates/proc/src/db.rs: one pass over the clusters in document order gives
-- every cite its position and the number of the note that first cited its reference.
mod Tests
pub mod Total
pub mod Notes
pub mod Cited
pub mod FirstSeen
use mathlib.Core.List.{foldl, filter_map}
use citeproc_rs.Base.{
  ℕ, Bool, true, false, not, ◌&&◌, ◌||◌, List, [], ◌∷◌, ◌++◌, Option, none, some, ◌==◌, leb, ltb,
  all, last?, is_empty, if◌then◌else◌,
}
use citeproc_rs.Base.Map.{Map, empty, insert}
use citeproc_rs.Position.{
  Position, first, ibid, ibid_with_locator, near_note, ibid_near, ibid_with_locator_near, far_note,
}
use citeproc_rs.ClusterNumber.{
  IntraNote, single, note_number, same_note, ClusterNumber, outside_flow, in_text, note, sub_note,
  wrapping_sub,
}
use citeproc_rs.Cites.{Cite, Locators, same_locators}

-- crates/db/src/cite.rs
pub record ClusterData : Type 0 where
  pub id : ℕ
  pub number : ClusterNumber
  pub cites : List ℕ

-- the queries of the database that the pass reads
pub record IrDatabase : Type 0 where
  pub lookup : ℕ → Cite
  pub clusters_cites_sorted : List ClusterData
  pub cluster_cites_sorted : ℕ → Option (List ℕ)
  pub near_note_distance : ℕ

-- the mutable variables of the pass
pub record State : Type 0 where
  pub positions : Map (Position × Option ℕ)
  pub first_seen : Map ClusterNumber
  pub last_note_num : Option ℕ
  pub clusters_in_last_note : List ℕ
  pub prev_in_text : Option ClusterData
  pub prev_note : Option ClusterData

abbrev pub initial : State
initial = record {
  positions = empty;
  first_seen = empty;
  last_note_num = none;
  clusters_in_last_note = [];
  prev_in_text = none;
  prev_note = none;
}

pub data Where : Type 0 where
  same_cluster : Cite → Where
  prev_cluster : Cite → Option ℕ → Where

-- the cluster that a cite can refer back to, by the kind of its own
unfoldable pub prev_cluster_for : State → ClusterNumber → Option ClusterData
prev_cluster_for st outside_flow = none
prev_cluster_for st (in_text _) = st.prev_in_text
prev_cluster_for st (note _) = st.prev_note

unfoldable pub prev_number : ClusterNumber → Option ℕ
prev_number (note intra) = some (note_number intra)
prev_number _ = none

module _ (db : IrDatabase) where
  unfoldable pub is_near : ClusterNumber → ℕ → Bool
  is_near number n = elim (sub_note number (single n)) [
    | none ↦ false
    | some d ↦ leb d db.near_note_distance
  ]

  -- every cite of a list is of this reference
  unfoldable pub all_of_ref : ℕ → List ℕ → Bool
  all_of_ref r cites = all (λ id. (db.lookup id).ref_id == r) cites

  -- `cites_all_same`
  unfoldable pub cites_all_same : State → ClusterNumber → ClusterData → ℕ → Bool
  unfolding all_of_ref filter_map
  cites_all_same st (note _) prev r =
      if not (is_empty st.clusters_in_last_note)
      then all (all_of_ref r) (filter_map db.cluster_cites_sorted st.clusters_in_last_note)
      else all_of_ref r prev.cites
  cites_all_same st _ prev r = all_of_ref r prev.cites

  -- the previous cluster, if all of its cites are of the same reference
  unfoldable pub in_prev_cluster : State → ClusterNumber → Cite → Option Where
  unfolding cites_all_same prev_cluster_for prev_number
  in_prev_cluster st number cite = elim (prev_cluster_for st number) [
    | none ↦ none
    | some prev ↦
        if cites_all_same st number prev cite.ref_id
        then elim (last? prev.cites) [
          | none ↦ none
          | some pid ↦ some (prev_cluster (db.lookup pid) (prev_number prev.number))
        ]
        else none
  ]

  -- the cite just before in the cluster, or else the previous cluster
  unfoldable pub find_prev : State → ClusterNumber → Option Cite → Cite → Option Where
  unfolding in_prev_cluster
  find_prev st number none cite = in_prev_cluster st number cite
  find_prev st number (some p) cite =
      if p.ref_id == cite.ref_id then some (same_cluster p) else in_prev_cluster st number cite

  unfoldable pub near_of : ClusterNumber → Where → Bool
  unfolding is_near
  near_of number (same_cluster _) = true
  near_of number (prev_cluster _ none) = false
  near_of number (prev_cluster _ (some n)) = is_near number n

abbrev pub cite_of : Where → Cite
cite_of (same_cluster p) = p
cite_of (prev_cluster p _) = p

abbrev pub or_else : Option Position → Position → Position
or_else none p = p
or_else (some q) p = q

-- what becomes of `first_seen` at the cite's reference
unfoldable pub seen_after : Option ClusterNumber → ClusterNumber → Option ClusterNumber
seen_after (some (note fst)) _ = some (note fst)
seen_after (some (in_text fst)) (note this) = some (note this)
seen_after (some (in_text fst)) _ = some (in_text fst)
seen_after s outside_flow = s
seen_after _ number = some number

-- The comparison of locators; the flag is `near`.
unfoldable pub locator_position : Option Locators → Option Locators → Bool → Position
locator_position none none near = if near then ibid_near else ibid
locator_position none (some _) near = if near then ibid_with_locator_near else ibid_with_locator
locator_position (some _) none near = if near then near_note else far_note
locator_position (some pre) (some cur) near =
    if same_locators pre cur
    then (if near then ibid_near else ibid)
    else if near
    then ibid_with_locator_near
    else ibid_with_locator

module _ (db : IrDatabase) where
  -- `matching_prev`
  unfoldable pub matching_prev : State → ClusterNumber → Option Cite → Cite → Option Position
  unfolding find_prev near_of
  matching_prev st number prev cite = elim (find_prev db st number prev cite) [
    | none ↦ none
    | some w ↦ some (locator_position (cite_of w).locators cite.locators (near_of db number w))
  ]

  -- what a cite gets, by `seen`, the number of its cluster, and `matching_prev`
  unfoldable pub entry_for :
      Option ClusterNumber → ClusterNumber → Option Position → Position × Option ℕ
  unfolding is_near
  entry_for (some (note fst)) (note this) m =
      let near = same_note this fst || is_near db (note this) (note_number fst) in
      (or_else m (if near then near_note else far_note), some (note_number fst))
  entry_for (some (in_text fst)) (in_text this) m =
      let near = leb (wrapping_sub this fst) db.near_note_distance in
      (or_else m (if near then near_note else far_note), none)
  entry_for _ _ m = (first, none)

  -- the body of the loop over a cluster's cites
  unfoldable pub cite_step : ClusterNumber → Option Cite → ℕ → State → State
  unfolding matching_prev entry_for seen_after
  cite_step number prev cite_id st =
      let cite = db.lookup cite_id in
      let seen = st.first_seen cite.ref_id in
      let entry = entry_for seen number (matching_prev st number prev cite) in
      let seen' = seen_after seen number in
      record st {
        positions = insert cite_id entry st.positions;
        first_seen = (λ r. if cite.ref_id == r then seen' else st.first_seen r);
      }

  -- the loop over a cluster's cites; `prev` is the cite before
  unfoldable pub cites_loop : ClusterNumber → Option Cite → List ℕ → State → State
  cites_loop number prev [] st = st
  cites_loop number prev (id ∷ ids) st =
      cites_loop number (some (db.lookup id)) ids (cite_step number prev id st)

-- a cluster joins the clusters of the last note, or starts a new last note
unfoldable pub join_last_note : ClusterNumber → ℕ → State → State
join_last_note (note n) id st =
    if elim st.last_note_num [ none ↦ false | some m ↦ m == note_number n ]
    then record st { clusters_in_last_note = st.clusters_in_last_note ++ id ∷ [] }
    else record st { last_note_num = some (note_number n); clusters_in_last_note = id ∷ [] }
join_last_note _ id st = st

abbrev pub if_in_text : ClusterData → ClusterNumber → Option ClusterData
if_in_text c (in_text _) = some c
if_in_text c _ = none

abbrev pub if_note : ClusterData → ClusterNumber → Option ClusterData
if_note c (note _) = some c
if_note c _ = none

-- the variables of the outer loop, after a cluster's cites
unfoldable pub close_cluster : ClusterData → State → State
unfolding join_last_note
close_cluster c st = record (join_last_note c.number c.id st) {
  prev_in_text = if_in_text c c.number;
  prev_note = if_note c c.number;
}

module _ (db : IrDatabase) where
  unfoldable pub cluster_step : State → ClusterData → State
  unfolding close_cluster
  cluster_step st c = close_cluster c (cites_loop db c.number none c.cites st)

  unfoldable pub run : List ClusterData → State
  unfolding cluster_step
  run cs = foldl cluster_step initial cs

  unfoldable pub cite_positions : Map (Position × Option ℕ)
  unfolding run
  cite_positions = (run db.clusters_cites_sorted).positions
