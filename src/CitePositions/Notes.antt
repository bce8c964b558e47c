-- ===== src/CitePositions/Notes.antt =====
-- What the entry of a cite in a note says: the number of the first note with its reference, and
-- how near that note or the cite before is.
use citeproc_rs.Base.{
  ℕ, ◌≤◌, ◌<◌, ◌-◌, ◌^◌, true, ◌||◌, List, [], ◌∷◌, ◌++◌, Option, none, some, ◌≡◌, ◌≢◌, refl, ap,
  arith, leb, is_some, some_of_is_some, if◌then◌else◌, ◌∙◌,
}
use citeproc_rs.Position.{Position, first, near_note, far_note}
use citeproc_rs.ClusterNumber.{
  ClusterNumber, IntraNote, single, outside_flow, note, note_number, same_note,
}
use citeproc_rs.ClusterNumber.Order.{sub_note-distance}
use citeproc_rs.Cites.{Cite}
use citeproc_rs.CitePositions.{
  ClusterData, IrDatabase, State, cite_positions, entry_for, matching_prev, find_prev, near_of,
  is_near, locator_position,
}
use citeproc_rs.CitePositions.FirstSeen.{has_ref, first_note}
use citeproc_rs.CitePositions.Cited.{Cited, prev_after, reached, earlier, entry_of_cite}

matching_prev-ne-first :
    (db : IrDatabase) (st : State) (c : ClusterNumber) (prev : Option Cite) (cite : Cite)
    → matching_prev db st c prev cite ≢ some first
unfolding matching_prev locator_position
matching_prev-ne-first db st c prev cite = ground arith

prev_after-last :
    (db : IrDatabase) (prev : Option Cite) (xs : List ℕ) (q : ℕ)
    → prev_after db prev (xs ++ (q ∷ [])) ≡ some (db.lookup q)
prev_after-last db prev [] q = refl
prev_after-last db prev (x ∷ xs) q = prev_after-last db (some (db.lookup x)) xs q

has_ref-last :
    (db : IrDatabase) (r : ℕ) (xs : List ℕ) (q : ℕ)
    → (db.lookup q).ref_id ≡ r
    → has_ref db r (xs ++ (q ∷ [])) ≡ true
has_ref-last db r [] q h = ground arith
has_ref-last db r (x ∷ xs) q h = ground (arith, has_ref-last db r xs q h)

first_note-last :
    (db : IrDatabase) (r : ℕ) (cs : List ClusterData) (c : ClusterData) {n : IntraNote}
    → c.number ≡ note n
    → has_ref db r c.cites ≡ true
    → is_some (first_note db r (cs ++ (c ∷ []))) ≡ true
unfolding first_note
first_note-last db r [] c e h = ground arith
first_note-last db r (x ∷ cs) c e h = ground (arith, first_note-last db r cs c e h)

entry_for-ne-first :
    (db : IrDatabase) (n m : IntraNote) (matched : Option Position)
    → matched ≢ some first
    → (entry_for db (some (note m)) (note n) matched).0 ≢ first
unfolding entry_for
entry_for-ne-first db n m none h = ground arith
entry_for-ne-first db n m (some p) h = ground arith

module _ (db : IrDatabase) (id : ℕ) (o : Cited db id) where
  -- what the pass has as `matching_prev` when it reaches the cite
  abbrev pub matched : Option Position
  matched =
      matching_prev db (reached db o) o.cluster.number (prev_after db none o.pre) (db.lookup id)

  abbrev pub first_note_before : Option IntraNote
  first_note_before = first_note db (db.lookup id).ref_id (earlier db o)

  -- A cite outside the flow of the document is always a first one, with no number.
  cite-outside_flow : o.cluster.number ≡ outside_flow → cite_positions db id ≡ some (first, none)
  unfolding entry_for
  cite-outside_flow e = ground (arith, entry_of_cite db id o)

  -- A cite in a note is a first one, with no number, if no note before it, and no cite before it
  -- in its own note, has the reference.
  cite-first_note :
      {n : IntraNote}
      → o.cluster.number ≡ note n
      → first_note_before ≡ none
      → cite_positions db id ≡ some (first, none)
  unfolding entry_for
  cite-first_note e h = ground (arith, entry_of_cite db id o)

  -- A cite in a note whose reference some note has cited before has the number of the first such
  -- note, and its position is not that of a first cite.
  pub cite-later_note :
      {n m : IntraNote}
      → o.cluster.number ≡ note n
      → first_note_before ≡ some m
      → (p : Position) × (cite_positions db id ≡ some (p, some (note_number m))) × (p ≢ first)
  unfolding entry_for
  cite-later_note {n} {m} e h =
      let entry = entry_for db (some (note m)) (note n) matched in
      (
        entry.0,
        ground (arith, entry_of_cite db id o),
        entry_for-ne-first db n m matched (
            matching_prev-ne-first db (reached db o) o.cluster.number (prev_after db none o.pre)
              (db.lookup id)),
      )

  -- Where nothing just before the cite matches it, the position is near-note if the cite stands
  -- in the very note that cited its reference first, or at most the style's distance from it,
  -- and else far-note. The two note numbers are in order, and are u32.
  cite-near_note :
      {n m : IntraNote}
      → o.cluster.number ≡ note n
      → first_note_before ≡ some m
      → matched ≡ none
      → note_number m ≤ note_number n
      → note_number n < 2 ^ 32
      → cite_positions db id
        ≡ some (
          if same_note n m || leb (note_number n - note_number m) db.near_note_distance
              then near_note
              else far_note,
          some (note_number m),
        )
  unfolding entry_for is_near
  cite-near_note {n} {m} e h k le lt =
      ground (arith, entry_of_cite db id o, sub_note-distance n (single (note_number m)) le lt)

  -- In a cluster that is a note or a part of one, a cite right after another cite of the same
  -- cluster with the same reference is placed by the locators of the two alone, as near, and has the
  -- number of the first note of the reference.
  pub cite_repeated :
      {n : IntraNote} (pre : List ℕ) (q : ℕ)
      → o.cluster.number ≡ note n
      → o.pre ≡ pre ++ (q ∷ [])
      → (db.lookup q).ref_id ≡ (db.lookup id).ref_id
      → (m : IntraNote) × (first_note_before ≡ some m)
        × (cite_positions db id
            ≡ some (
              locator_position (db.lookup q).locators (db.lookup id).locators true,
              some (note_number m),
            ))
  unfolding entry_for matching_prev find_prev near_of
  cite_repeated pre q e split same =
      let own = record o.cluster { cites = o.pre } in
      let r = (db.lookup id).ref_id in
      let cited : has_ref db r o.pre ≡ true = rw split (has_ref-last db r pre q same) in
      let (m, h) = some_of_is_some first_note_before (first_note-last db r o.before own e cited) in
      let prev : prev_after db none o.pre ≡ some (db.lookup q) =
        ap (prev_after db none) split ∙ prev_after-last db none pre q in
      (m, h, ground (arith, entry_of_cite db id o, h, prev, same))
