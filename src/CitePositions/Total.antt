-- ===== src/CitePositions/Total.antt =====
-- Every cite of every cluster gets a position, and nothing else does.
use mathlib.Core.List.{foldl}
use citeproc_rs.Base.{
  ℕ, Bool, ◌||◌, List, [], ◌∷◌, Option, none, some, ◌≡◌, ◌∙◌, refl, arith, ◌==◌, any, is_some,
}
use citeproc_rs.ClusterNumber.{ClusterNumber}
use citeproc_rs.Cites.{Cite}
use citeproc_rs.CitePositions.{
  ClusterData, IrDatabase, State, initial, cite_step, cites_loop, close_cluster, cluster_step,
  cite_positions,
}

abbrev pub occurs : ℕ → List ℕ → Bool
occurs id ids = any (λ j. j == id) ids

pub positions-close_cluster :
    (c : ClusterData) (st : State) → (close_cluster c st).positions ≡ st.positions
unfolding close_cluster
positions-close_cluster c st = ground arith

module _ (db : IrDatabase) (id : ℕ) where
  cites_loop-is_some :
      (number : ClusterNumber) (prev : Option Cite) (ids : List ℕ) (st : State)
      → is_some ((cites_loop db number prev ids st).positions id)
        ≡ (occurs id ids || is_some (st.positions id))
  unfolding cites_loop cite_step
  cites_loop-is_some number prev [] st = refl
  cites_loop-is_some number prev (j ∷ ids) st =
      ground
        (arith, cites_loop-is_some number (some (db.lookup j)) ids (cite_step db number prev j st))

  foldl-is_some :
      (cs : List ClusterData) (st : State)
      → is_some ((foldl (cluster_step db) st cs).positions id)
        ≡ (any (λ c. occurs id c.cites) cs || is_some (st.positions id))
  unfolding cluster_step
  foldl-is_some [] st = refl
  foldl-is_some (c ∷ cs) st =
      let done = cites_loop db c.number none c.cites st in
      ground (
        arith,
        foldl-is_some cs (cluster_step db st c),
        positions-close_cluster c done,
        cites_loop-is_some c.number none c.cites st,
      )

  -- A cite has a position exactly when it stands in some cluster of the document.
  cite_positions-is_some :
      is_some (cite_positions db id) ≡ any (λ c. occurs id c.cites) db.clusters_cites_sorted
  unfolding cite_positions
  cite_positions-is_some = foldl-is_some db.clusters_cites_sorted initial ∙ ground arith
