-- ===== src/Processor/Placed.antt =====
-- The log of a piece of a new order, and what it undoes, for `set_cluster_order_inner` of
-- crates/citeproc/src/processor.rs.
use mathlib.Core.Path.{subst}
use citeproc_rs.Base.{
  ◌+◌, ◌∙◌, true, none, some, inl, inr, ◌≡◌, ◌==◌, if◌then◌else◌, false, refl, arith, [], ◌∷◌, ◌++◌,
  ℕ, List, is_some, ◌||◌, Option, any, ◌&&◌, Bool-cases, ==_iff, ap, sym, Option-cases, ltb, ◌%◌,
  ◌^◌,
}
use citeproc_rs.Base.Map.{Map}
use citeproc_rs.Base.Sets.{contains}
use citeproc_rs.ClusterNumber.{ClusterNumber, note, in_text, multi}
use citeproc_rs.ClusterOrder.{
  ClusterPosition, Order, ok, non_monotonic, place, place_note, log_change, assign,
}
use citeproc_rs.Processor.Clusters.{store}
use citeproc_rs.Processor.Preview.{write_back}

pub write_back-append :
    (xs : List (ℕ × Option ClusterNumber)) (id : ℕ) (n : Option ClusterNumber)
    (m : Map ClusterNumber) (k : ℕ)
    → write_back (xs ++ (id, n) ∷ []) m k ≡ store id n (write_back xs m) k
unfolding write_back
write_back-append [] id n m k = refl
write_back-append ((j, o) ∷ xs) id n m k = write_back-append xs id n (store j o m) k

any-contains : (k : ℕ) (xs : List ℕ) → any (λ j. j == k) xs ≡ contains k xs
any-contains k [] = refl
any-contains k (x ∷ xs) = ground (arith, any-contains k xs)

-- the log and the numbers after one piece
pub record Placed (old : List ℕ) (m : Map ClusterNumber) (p : ClusterPosition) (st : Order)
    (st' : Order) : Type 0 where
  pub seen : is_some st'.this_note ≡ (is_some st.this_note || is_some p.note_of)
  pub kept : (k : ℕ) → (p.id == k) ≡ false → st'.numbers k ≡ st.numbers k
  pub undone :
      (k : ℕ)
      → write_back st'.mods m k ≡ (
          if (p.id == k) && (contains k old && (is_some st.this_note && is_some p.note_of))
          then st.numbers k
          else write_back st.mods m k)

put_here :
    (id k : ℕ) (old : List ℕ) (st : Order) (m : Map ClusterNumber)
    → contains id old ≡ true
    → store id (st.numbers id) (write_back st.mods m) k
      ≡ (if (id == k) && contains k old then st.numbers k else write_back st.mods m k)
put_here id k old st m h = elim (Bool-cases (id == k)) [
  | inl same ↦
      let at : id ≡ k = (==_iff id k).0 same in
      ground (arith, ap st.numbers at, ap (λ i. contains i old) at, h, same)
  | inr other ↦ ground (arith, other)
]

put_nowhere :
    (id k : ℕ) (old : List ℕ) (st : Order) (m : Map ClusterNumber)
    → contains id old ≡ false
    → write_back st.mods m k
      ≡ (if (id == k) && contains k old then st.numbers k else write_back st.mods m k)
put_nowhere id k old st m h = elim (Bool-cases (id == k)) [
  | inl same ↦
      let at : id ≡ k = (==_iff id k).0 same in ground (arith, ap (λ i. contains i old) at, h, same)
  | inr other ↦ ground (arith, other)
]

log_change-undone :
    (old : List ℕ) (m : Map ClusterNumber) (id : ℕ) (st : Order) (k : ℕ)
    → write_back (log_change old id st).mods m k
      ≡ (if (id == k) && contains k old then st.numbers k else write_back st.mods m k)
log_change-undone old m id st k =
    let after = record st { mods = st.mods ++ (id, st.numbers id) ∷ [] } in
    elim (Bool-cases (any (λ j. j == id) old)) [
      | inl present ↦
          let append = write_back-append st.mods id (st.numbers id) m k in
          ap (λ b. write_back (if b then after else st).mods m k) present
          ∙ (append ∙ put_here id k old st m (sym (any-contains id old) ∙ present))
      | inr absent ↦
          ap (λ b. write_back (if b then after else st).mods m k) absent
          ∙ put_nowhere id k old st m (sym (any-contains id old) ∙ absent)
    ]

log_change-numbers :
    (old : List ℕ) (id : ℕ) (st : Order) → (log_change old id st).numbers ≡ st.numbers
log_change-numbers old id st = elim (Bool-cases (any (λ j. j == id) old)) [
  | inl e ↦
      ap (λ b. (if b then record st { mods = st.mods ++ (id, st.numbers id) ∷ [] } else st).numbers)
        e
  | inr e ↦
      ap (λ b. (if b then record st { mods = st.mods ++ (id, st.numbers id) ∷ [] } else st).numbers)
        e
]

-- a piece that is logged
logged-Placed :
    (old : List ℕ) (m : Map ClusterNumber) (p : ClusterPosition) (n : ClusterNumber) (now : ℕ × ℕ)
    (st : Order)
    → (is_some st.this_note && is_some p.note_of) ≡ true
    → Placed old m p st (record (assign p.id n (log_change old p.id st)) { this_note = some now })
logged-Placed old m p n now st h = record {
  seen = ground (arith, h);
  kept = λ k other. ground (arith, other) ∙ ap (λ f. f k) (log_change-numbers old p.id st);
  undone = λ k. log_change-undone old m p.id st k ∙ ground (arith, h);
}

-- a piece that is not
unlogged-Placed :
    (old : List ℕ) (m : Map ClusterNumber) (p : ClusterPosition) (st st' : Order)
    → (is_some st.this_note && is_some p.note_of) ≡ false
    → is_some st'.this_note ≡ (is_some st.this_note || is_some p.note_of)
    → ((k : ℕ) → (p.id == k) ≡ false → st'.numbers k ≡ st.numbers k)
    → st'.mods ≡ st.mods
    → Placed old m p st st'
unlogged-Placed old m p st st' h seen kept mods = record {
  seen = seen;
  kept = kept;
  undone = λ k. ap (λ l. write_back l m k) mods ∙ ground (arith, h);
}

pub ok-injective : (a b : Order) → ok a ≡ ok b → a ≡ b
ok-injective a b h = cc h

place_note-Placed :
    (old : List ℕ) (m : Map ClusterNumber) (p : ClusterPosition) (nn : ℕ) (last : Option (ℕ × ℕ))
    (st st' : Order)
    → p.note_of ≡ some nn
    → st.this_note ≡ last
    → place_note old p.id nn last st ≡ ok st'
    → Placed old m p st st'
unfolding place_note
place_note-Placed old m p nn none st st' is_note first h =
    let now = record (assign p.id (note (multi nn 0)) st) { this_note = some (nn, 1) } in
    subst (Placed old m p st) (ok-injective now st' h) (
      unlogged-Placed old m p st now (ground (arith, first)) (ground (arith, is_note))
        (λ k other. ground (arith, other)) refl)
place_note-Placed old m p nn (some (num, index)) st st' is_note later h =
    let both : (is_some st.this_note && is_some p.note_of) ≡ true =
      ground (arith, later, is_note) in
    let logged = log_change old p.id st in
    let same = record (assign p.id (note (multi num index)) logged) {
      this_note = some (num, (index + 1) % 2 ^ 32);
    } in
    let next = record (assign p.id (note (multi nn 0)) logged) { this_note = some (nn, 1) } in
    elim (Bool-cases (ltb nn num)) [
      | inl before ↦
          let e : non_monotonic nn st ≡ ok st' =
            ap (λ b. if b then non_monotonic nn st else (if nn == num then ok same else ok next))
              (sym before)
            ∙ h in
          absurd (cc e)
      | inr after ↦ elim (Bool-cases (nn == num)) [
        | inl here ↦
            let e : ok same ≡ ok st' =
              ap (λ c. if c then ok same else ok next) (sym here)
              ∙ (ap
                    (λ b.
                      if b then non_monotonic nn st else (if nn == num then ok same else ok next))
                    (sym after)
                  ∙ h) in
            subst (Placed old m p st) (ok-injective same st' e)
              (logged-Placed old m p (note (multi num index)) (num, (index + 1) % 2 ^ 32) st both)
        | inr there ↦
            let e : ok next ≡ ok st' =
              ap (λ c. if c then ok same else ok next) (sym there)
              ∙ (ap
                    (λ b.
                      if b then non_monotonic nn st else (if nn == num then ok same else ok next))
                    (sym after)
                  ∙ h) in
            subst (Placed old m p st) (ok-injective next st' e)
              (logged-Placed old m p (note (multi nn 0)) (nn, 1) st both)
      ]
    ]

pub place-Placed :
    (old : List ℕ) (m : Map ClusterNumber) (p : ClusterPosition) (st st' : Order)
    → place old p st ≡ ok st'
    → Placed old m p st st'
unfolding place
place-Placed old m p st st' h = elim (Option-cases p.note_of) [
  | inl text ↦
      let now = record (assign p.id (in_text st.intext_number) st) {
        intext_number = (st.intext_number + 1) % 2 ^ 32;
      } in
      let e : ok now ≡ ok st' =
        ap (λ o. elim o [ some nn ↦ place_note old p.id nn st.this_note st | none ↦ ok now ])
          (sym text)
        ∙ h in
      subst (Placed old m p st) (ok-injective now st' e) (
        unlogged-Placed old m p st now (ground (arith, text)) (ground (arith, text))
          (λ k other. ground (arith, other)) refl)
  | inr (nn, is_note) ↦
      let now = record (assign p.id (in_text st.intext_number) st) {
        intext_number = (st.intext_number + 1) % 2 ^ 32;
      } in
      let e : place_note old p.id nn st.this_note st ≡ ok st' =
        ap (λ o. elim o [ some n ↦ place_note old p.id n st.this_note st | none ↦ ok now ])
          (sym is_note)
        ∙ h in
      place_note-Placed old m p nn st.this_note st st' is_note refl e
]
