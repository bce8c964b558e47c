-- ===== src/CitePositions/FirstSeen.antt =====
-- What the pass remembers of a reference: the first note that cited it, or else the first cluster
-- in the text that did.
use mathlib.Core.List.{foldl}
use citeproc_rs.Base.{
  ℕ, Bool, true, List, [], ◌∷◌, Option, none, some, ◌≡◌, ◌≢◌, refl, arith, ◌==◌, any, if◌then◌else◌,
}
use citeproc_rs.ClusterNumber.{ClusterNumber, IntraNote, outside_flow, in_text, note}
use citeproc_rs.Cites.{Cite}
use citeproc_rs.CitePositions.{
  ClusterData, IrDatabase, State, initial, cite_step, cites_loop, close_cluster, cluster_step, run,
  seen_after,
}

abbrev pub has_ref : IrDatabase → ℕ → List ℕ → Bool
has_ref db r ids = any (λ id. (db.lookup id).ref_id == r) ids

abbrev note_part : ClusterNumber → Bool → Option IntraNote → Option IntraNote
note_part (note n) true rest = some n
note_part _ _ rest = rest

abbrev text_part : ClusterNumber → Bool → Option ℕ → Option ℕ
text_part (in_text n) true rest = some n
text_part _ _ rest = rest

module _ (db : IrDatabase) (r : ℕ) where
  -- the first note, in document order, that cites the reference
  unfoldable pub first_note : List ClusterData → Option IntraNote
  first_note [] = none
  first_note (c ∷ cs) = note_part c.number (has_ref db r c.cites) (first_note cs)

  -- the first cluster in the text that cites the reference
  unfoldable pub first_in_text : List ClusterData → Option ℕ
  first_in_text [] = none
  first_in_text (c ∷ cs) = text_part c.number (has_ref db r c.cites) (first_in_text cs)

abbrev pub note_before_text : Option IntraNote → Option ℕ → Option ClusterNumber
note_before_text (some n) t = some (note n)
note_before_text none (some t) = some (in_text t)
note_before_text none none = none

module _ (db : IrDatabase) (r : ℕ) where
  abbrev pub first_reference : List ClusterData → Option ClusterNumber
  first_reference cs = note_before_text (first_note db r cs) (first_in_text db r cs)

  -- the same, when something has been seen already
  abbrev seen_from : Option ClusterNumber → List ClusterData → Option ClusterNumber
  seen_from (some (note n)) cs = some (note n)
  seen_from (some (in_text t)) cs = note_before_text (first_note db r cs) (some t)
  seen_from _ cs = first_reference cs

  seen_from-cons :
      (s : Option ClusterNumber) (c : ClusterData) (cs : List ClusterData)
      → seen_from (if has_ref db r c.cites then seen_after s c.number else s) cs
        ≡ seen_from s (c ∷ cs)
  unfolding seen_after first_note first_in_text
  seen_from-cons s c cs = ground arith

  seen_after_twice :
      (s : Option ClusterNumber) (n : ClusterNumber)
      → seen_after (seen_after s n) n ≡ seen_after s n
  unfolding seen_after
  seen_after_twice s n = ground arith

  pub first_seen-cites_loop :
      (number : ClusterNumber) (prev : Option Cite) (ids : List ℕ) (st : State)
      → (cites_loop db number prev ids st).first_seen r
        ≡ (if has_ref db r ids then seen_after (st.first_seen r) number else st.first_seen r)
  unfolding cites_loop cite_step
  first_seen-cites_loop number prev [] st = refl
  first_seen-cites_loop number prev (j ∷ ids) st = ground (
    arith,
    seen_after_twice (st.first_seen r) number,
    first_seen-cites_loop number (some (db.lookup j)) ids (cite_step db number prev j st),
  )

  pub first_seen-close_cluster :
      (c : ClusterData) (st : State) → (close_cluster c st).first_seen ≡ st.first_seen
  unfolding close_cluster
  first_seen-close_cluster c st = ground arith

  seen_after-ne-outside :
      (s : Option ClusterNumber) (n : ClusterNumber)
      → s ≢ some outside_flow
      → seen_after s n ≢ some outside_flow
  unfolding seen_after
  seen_after-ne-outside s n h = ground arith

  first_seen-cluster_step :
      (c : ClusterData) (st : State)
      → (cluster_step db st c).first_seen r
        ≡ (if has_ref db r c.cites then seen_after (st.first_seen r) c.number else st.first_seen r)
  unfolding cluster_step
  first_seen-cluster_step c st =
      rw first_seen-close_cluster (first_seen-cites_loop c.number none c.cites st)

  foldl-first_seen :
      (cs : List ClusterData) (st : State)
      → st.first_seen r ≢ some outside_flow
      → (foldl (cluster_step db) st cs).first_seen r ≡ seen_from (st.first_seen r) cs
  unfolding first_note first_in_text
  foldl-first_seen [] st h = ground arith
  foldl-first_seen (c ∷ cs) st h = ground (
    arith,
    first_seen-cluster_step c st,
    seen_after-ne-outside (st.first_seen r) c.number h,
    foldl-first_seen cs (cluster_step db st c),
    seen_from-cons (st.first_seen r) c cs,
  )

  -- After any clusters, the back-reference of a reference is the first note that cites it; where
  -- no note does, the first cluster in the text that does; and else nothing. Clusters outside
  -- the flow never count.
  pub first_seen-run : (cs : List ClusterData) → (run db cs).first_seen r ≡ first_reference cs
  unfolding run
  first_seen-run cs = foldl-first_seen cs initial (λ e. cc)
