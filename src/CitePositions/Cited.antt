-- ===== src/CitePositions/Cited.antt =====
-- The entry of one cite of the document: first reference, or a back-reference to a note.
use mathlib.Core.List.{foldl, foldl-append}
use citeproc_rs.Base.{
  ℕ, false, List, [], ◌∷◌, ◌++◌, Option, none, some, ◌≡◌, ◌∙◌, ap, refl, arith, ==_iff, any,
}
use citeproc_rs.ClusterNumber.{ClusterNumber}
use citeproc_rs.Cites.{Cite}
use citeproc_rs.CitePositions.{
  ClusterData, IrDatabase, State, initial, cite_step, cites_loop, cluster_step, run, cite_positions,
  entry_for, matching_prev,
}
use citeproc_rs.CitePositions.Total.{occurs, positions-close_cluster}
use citeproc_rs.CitePositions.FirstSeen.{first_reference, first_seen-run, first_seen-close_cluster}

-- A place of the document at which a cite stands, and after which it does not stand again.
pub record Cited (db : IrDatabase) (id : ℕ) : Type 0 where
  pub before : List ClusterData
  pub cluster : ClusterData
  pub after : List ClusterData
  pub splits : db.clusters_cites_sorted ≡ before ++ (cluster ∷ after)
  pub pre : List ℕ
  pub post : List ℕ
  pub cites_split : cluster.cites ≡ pre ++ (id ∷ post)
  pub not_in_post : occurs id post ≡ false
  pub not_in_after : any (λ c. occurs id c.cites) after ≡ false

-- the cite that the loop has as its previous one after some cites
abbrev pub prev_after : IrDatabase → Option Cite → List ℕ → Option Cite
prev_after db prev [] = prev
prev_after db prev (j ∷ ids) = prev_after db (some (db.lookup j)) ids

module _ (db : IrDatabase) where
  cites_loop-append :
      (number : ClusterNumber) (prev : Option Cite) (xs ys : List ℕ) (st : State)
      → cites_loop db number prev (xs ++ ys) st
        ≡ cites_loop db number (prev_after db prev xs) ys (cites_loop db number prev xs st)
  unfolding cites_loop
  cites_loop-append number prev [] ys st = refl
  cites_loop-append number prev (x ∷ xs) ys st =
      cites_loop-append number (some (db.lookup x)) xs ys (cite_step db number prev x st)

  module _ (id : ℕ) where
    positions-cites_loop :
        (number : ClusterNumber) (prev : Option Cite) (ids : List ℕ) (st : State)
        → occurs id ids ≡ false
        → (cites_loop db number prev ids st).positions id ≡ st.positions id
    unfolding cites_loop cite_step
    positions-cites_loop number prev [] st h = refl
    positions-cites_loop number prev (j ∷ ids) st h = ground (
      arith,
      positions-cites_loop number (some (db.lookup j)) ids (cite_step db number prev j st),
    )

    positions-foldl :
        (cs : List ClusterData) (st : State)
        → any (λ c. occurs id c.cites) cs ≡ false
        → (foldl (cluster_step db) st cs).positions id ≡ st.positions id
    unfolding cluster_step
    positions-foldl [] st h = refl
    positions-foldl (c ∷ cs) st h = ground (
      arith,
      positions-foldl cs (cluster_step db st c),
      positions-close_cluster c (cites_loop db c.number none c.cites st),
      positions-cites_loop c.number none c.cites st,
    )

  -- the state in which the loop reaches the cite
  abbrev pub reached : {id : ℕ} → Cited db id → State
  reached o = cites_loop db o.cluster.number none o.pre (run db o.before)

  -- the clusters of the document before the cite, its own up to the cite
  abbrev pub earlier : {id : ℕ} → Cited db id → List ClusterData
  earlier o = o.before ++ (record o.cluster { cites = o.pre } ∷ [])

  run-append :
      (xs ys : List ClusterData) → run db (xs ++ ys) ≡ foldl (cluster_step db) (run db xs) ys
  unfolding run
  run-append xs ys = foldl-append (cluster_step db) initial xs ys

  first_seen-reached :
      {id : ℕ} (o : Cited db id) (r : ℕ)
      → (reached o).first_seen r ≡ first_reference db r (earlier o)
  unfolding cluster_step
  first_seen-reached o r =
      let c = record o.cluster { cites = o.pre } in
      cc (
        first_seen-run db r (earlier o),
        run-append o.before (c ∷ []),
        first_seen-close_cluster db r c (reached o),
      )

  positions-run :
      {id : ℕ} (o : Cited db id)
      → cite_positions db id
        ≡ (cites_loop db o.cluster.number none o.cluster.cites (run db o.before)).positions id
  unfolding cite_positions cluster_step
  positions-run {id} o =
      ap (λ cs. (run db cs).positions id) o.splits
      ∙ rw run-append (
          positions-foldl id o.after (cluster_step db (run db o.before) o.cluster) o.not_in_after
          ∙ rw positions-close_cluster)

  positions-cite_step :
      (number : ClusterNumber) (prev : Option Cite) (id : ℕ) (post : List ℕ) (st : State)
      → occurs id post ≡ false
      → (cites_loop db number prev (id ∷ post) st).positions id
        ≡ some (
            entry_for db
              (st.first_seen (db.lookup id).ref_id)
              number
              (matching_prev db st number prev (db.lookup id)))
  unfolding cites_loop cite_step
  positions-cite_step number prev id post st h =
      positions-cites_loop id number (some (db.lookup id)) post (cite_step db number prev id st) h
      ∙ rw (==_iff id id).1 refl

  pub entry_of_cite :
      (id : ℕ) (o : Cited db id)
      → cite_positions db id
        ≡ some (
            entry_for db (first_reference db (db.lookup id).ref_id (earlier o)) o.cluster.number (
              matching_prev db
                (reached o)
                o.cluster.number
                (prev_after db none o.pre)
                (db.lookup id)))
  entry_of_cite id o =
      positions-run o
      ∙ rw (o.cites_split, cites_loop-append)
          (positions-cite_step o.cluster.number (prev_after db none o.pre) id o.post (reached o)
              o.not_in_post
            ∙ rw first_seen-reached)
