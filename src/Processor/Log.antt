-- ===== src/Processor/Log.antt =====
-- Which of the numbers that a new order writes its log undoes, as `preview_marked_init` of
-- crates/citeproc/src/processor.rs uses the log.
use citeproc_rs.Base.{
  ◌∙◌, inl, inr, ◌≡◌, ◌==◌, if◌then◌else◌, false, arith, [], ◌∷◌, ℕ, List, Bool, is_some, ◌||◌, map,
  ◌&&◌, not, Bool-cases, ==_iff, ap, sym,
}
use citeproc_rs.Base.Map.{Map}
use citeproc_rs.Base.Sets.{contains, Distinct}
use citeproc_rs.ClusterNumber.{ClusterNumber}
use citeproc_rs.ClusterOrder.{
  ClusterPosition, Order, Result-cases, ok, non_monotonic, place, place_all,
}
use citeproc_rs.Processor.Placed.{place-Placed, ok-injective}
use citeproc_rs.Processor.Preview.{write_back}

-- the pieces whose old number is not logged: one without a note, and the first one with a note
unfoldable pub unlogged : Bool → List ClusterPosition → ℕ → Bool
unlogged seen [] k = false
unlogged seen (p ∷ ps) k =
    let rest = unlogged (seen || is_some p.note_of) ps k in
    if p.id == k then not (seen && is_some p.note_of) else rest

-- whether the order gives the cluster a number that the log undoes
unfoldable pub logged : List ℕ → Bool → List ClusterPosition → ℕ → Bool
unfolding unlogged
logged old seen ps k = contains k (map (λ p. p.id) ps) && contains k old && not (unlogged seen ps k)

-- what the log of the whole loop undoes
pub place_all-undone :
    (old : List ℕ) (m : Map ClusterNumber) (ps : List ClusterPosition) (st st' : Order)
    → Distinct (map (λ p. p.id) ps)
    → place_all old ps st ≡ ok st'
    → (k : ℕ)
    → write_back st'.mods m k
      ≡ (if logged old (is_some st.this_note) ps k then st.numbers k else write_back st.mods m k)
unfolding place_all logged unlogged
place_all-undone old m [] st st' d h k =
    ap (λ s. write_back s.mods m k) (sym (ok-injective st st' h))
place_all-undone old m (p ∷ ps) st st' (e, d) h k = elim (Result-cases (place old p st)) [
  | inl (now, step) ↦
      let rest : place_all old ps now ≡ ok st' =
        ap (λ r. elim r [ ok s ↦ place_all old ps s | non_monotonic n s ↦ non_monotonic n s ])
          (sym step)
        ∙ h in
      let placed = place-Placed old m p st now step in
      let later = place_all-undone old m ps now st' d rest k in
      elim (Bool-cases (p.id == k)) [
        | inl same ↦
            let at : p.id ≡ k = (==_iff p.id k).0 same in
            let nowhere : contains k (map (λ q. q.id) ps) ≡ false =
              ap (λ i. contains i (map (λ q. q.id) ps)) (sym at) ∙ e in
            let unlogged_later : logged old (is_some now.this_note) ps k ≡ false =
              ground (arith, nowhere) in
            later
            ∙ (ap (λ b. if b then now.numbers k else write_back now.mods m k) unlogged_later
                ∙ (placed.undone k ∙ ground (arith, same)))
        | inr other ↦
            later ∙ ground (arith, other, placed.seen, placed.kept k other, placed.undone k)
      ]
  | inr (n, s, step) ↦
      let e' : non_monotonic n s ≡ ok st' =
        ap (λ r. elim r [ ok s' ↦ place_all old ps s' | non_monotonic n' s' ↦ non_monotonic n' s' ])
          (sym step)
        ∙ h in
      absurd (cc e')
]
