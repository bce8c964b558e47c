-- ===== src/ClusterOrder/Numbering.antt =====
-- The numbers that clusters get are all different, for fewer pieces than the counters can count.
use mathlib.Core.Path.{subst}
use citeproc_rs.Base.{
  ℕ, ◌+◌, ◌%◌, ◌^◌, length, ◌≤◌, ◌<◌, true, ◌||◌, List, [], ◌∷◌, ◌++◌, Option, none, some, ◌≡◌, ◌≢◌,
  ◌⊎◌, refl, sym, ap, ◌∙◌, arith, inl, inr, ==_iff, Bool-cases, Option-cases, ltb, ◌==◌, is_some,
  some_of_is_some, length,
}
use citeproc_rs.Base.Map.{Map, insert}
use citeproc_rs.ClusterNumber.{ClusterNumber, note, in_text, outside_flow, single, multi}
use citeproc_rs.CitePositions.Total.{occurs}
use citeproc_rs.ClusterOrder.{
  ClusterPosition, Inputs, Order, Result, Result-cases, ok, non_monotonic, place, place_note,
  place_all, log_change, finish, set_cluster_order, start, assign,
}

-- a number that the pass has given already: below its counters
abbrev Given : Order → ClusterNumber → Type 0
Given st (in_text k) = k < st.intext_number
Given st (note (multi a i)) = elim st.this_note [
  | none ↦ ⊥
  | some (n, index) ↦ (a < n) ⊎ ((a ≡ n) × (i < index))
]
Given st _ = ⊥

record Numbered (st : Order) : Type 0 where
  given : (j : ℕ) (n : ClusterNumber) → st.numbers j ≡ some n → occurs j st.ids ≡ true → Given st n
  total : (j : ℕ) → occurs j st.ids ≡ true → is_some (st.numbers j) ≡ true
  apart :
      (j k : ℕ) (n : ClusterNumber)
      → occurs j st.ids ≡ true
      → occurs k st.ids ≡ true
      → st.numbers j ≡ some n
      → st.numbers k ≡ some n
      → j ≡ k

occurs-append :
    (j : ℕ) (xs : List ℕ) (k : ℕ) → occurs j (xs ++ (k ∷ [])) ≡ (occurs j xs || (k == j))
occurs-append j [] k = ground arith
occurs-append j (x ∷ xs) k = ground (arith, occurs-append j xs k)

-- the state after one assignment, at any of its clusters
assign-cases :
    (id : ℕ) (n : ClusterNumber) (st st' : Order)
    → st'.numbers ≡ insert id n st.numbers
    → st'.ids ≡ st.ids ++ (id ∷ [])
    → (j : ℕ) → occurs j st'.ids ≡ true
    → ((j ≡ id) × (st'.numbers j ≡ some n))
      ⊎ ((occurs j st.ids ≡ true) × (st'.numbers j ≡ st.numbers j))
assign-cases id n st st' numbers ids j o =
    let at_j = ap (λ f. f j) numbers in
    let among : (occurs j st.ids || (id == j)) ≡ true =
      sym (occurs-append j st.ids id) ∙ (ap (occurs j) (sym ids) ∙ o) in
    elim (Bool-cases (id == j)) [
      | inl same ↦ inl (sym ((==_iff id j).0 same), ground (arith, at_j))
      | inr other ↦ inr (ground arith, ground (arith, at_j))
    ]

-- one more assignment, of a number that was not given, to a state that counts it as given
module _ (id : ℕ) (n : ClusterNumber) (st st' : Order) (inv : Numbered st) (fresh : ¬ (Given st n))
    (numbers : st'.numbers ≡ insert id n st.numbers) (ids : st'.ids ≡ st.ids ++ (id ∷ []))
    (grows : (m : ClusterNumber) → Given st m → Given st' m) (now : Given st' n) where
  assign-Given :
      (j : ℕ) (m : ClusterNumber) → st'.numbers j ≡ some m → occurs j st'.ids ≡ true → Given st' m
  assign-Given j m e o = elim (assign-cases id n st st' numbers ids j o) [
    | inl (same, at_j) ↦ let e' : n ≡ m = cc (at_j, e) in subst (Given st') e' now
    | inr (old, at_j) ↦ grows m (inv.given j m (sym at_j ∙ e) old)
  ]

  total_after : (j : ℕ) → occurs j st'.ids ≡ true → is_some (st'.numbers j) ≡ true
  total_after j o = elim (assign-cases id n st st' numbers ids j o) [
    | inl (same, at_j) ↦ rw at_j refl
    | inr (old, at_j) ↦ rw at_j (inv.total j old)
  ]

  -- an old cluster does not have the new number
  not_new : (j : ℕ) → occurs j st.ids ≡ true → st'.numbers j ≡ st.numbers j → st'.numbers j ≢ some n
  not_new j old at_j e = fresh (inv.given j n (sym at_j ∙ e) old)

  apart_after :
      (j k : ℕ) (m : ClusterNumber)
      → occurs j st'.ids ≡ true
      → occurs k st'.ids ≡ true
      → st'.numbers j ≡ some m
      → st'.numbers k ≡ some m
      → j ≡ k
  apart_after j k m oj ok' ej ek = elim (assign-cases id n st st' numbers ids j oj) [
    | inl (same_j, at_j) ↦ elim (assign-cases id n st st' numbers ids k ok') [
      | inl (same_k, at_k) ↦ same_j ∙ sym same_k
      | inr (old_k, at_k) ↦ absurd (not_new k old_k at_k (ek ∙ (sym ej ∙ at_j)))
    ]
    | inr (old_j, at_j) ↦ elim (assign-cases id n st st' numbers ids k ok') [
      | inl (same_k, at_k) ↦ absurd (not_new j old_j at_j (ej ∙ (sym ek ∙ at_k)))
      | inr (old_k, at_k) ↦ inv.apart j k m old_j old_k (sym at_j ∙ ej) (sym at_k ∙ ek)
    ]
  ]

  assign-Numbered : Numbered st'
  assign-Numbered = record { given = assign-Given; total = total_after; apart = apart_after }

start-Numbered : (numbers : Map ClusterNumber) → Numbered (start numbers)
start-Numbered numbers = record {
  given = λ j n e o. cc;
  total = λ j o. cc;
  apart = λ j k n oj ok' ej ek. cc;
}

Given-grows :
    (st st' : Order) (m : ClusterNumber)
    → st.intext_number ≤ st'.intext_number
    → ((a i : ℕ) → Given st (note (multi a i)) → Given st' (note (multi a i)))
    → Given st m
    → Given st' m
Given-grows st st' (in_text k) h notes g = omega arith
Given-grows st st' (note (multi a i)) h notes g = notes a i g
Given-grows st st' (note (single a)) h notes g = g
Given-grows st st' outside_flow h notes g = g

place_text-Numbered :
    (id : ℕ) (st : Order)
    → st.intext_number + 1 < 2 ^ 32
    → Numbered st
    → Numbered (record (assign id (in_text st.intext_number) st) {
      intext_number = (st.intext_number + 1) % 2 ^ 32;
    })
place_text-Numbered id st small inv =
    let st' = record (assign id (in_text st.intext_number) st) {
      intext_number = (st.intext_number + 1) % 2 ^ 32;
    } in
    assign-Numbered id (in_text st.intext_number) st st' inv (λ g. omega arith) refl refl
      (λ m g. Given-grows st st' m (omega arith) (λ a i h. h) g) (omega arith)

-- a note that comes after all notes so far
place_note-Numbered :
    (id a i next : ℕ) (st : Order) (mods : List (ℕ × Option ClusterNumber))
    → i < next
    → Numbered st
    → ¬ (Given st (note (multi a i)))
    → ((b k : ℕ) → Given st (note (multi b k)) → (b < a) ⊎ ((b ≡ a) × (k < next)))
    → Numbered
        (record (assign id (note (multi a i)) st) { this_note = some (a, next); mods = mods })
place_note-Numbered id a i next st mods more inv fresh below =
    let st' = record (assign id (note (multi a i)) st) {
      this_note = some (a, next);
      mods = mods;
    } in
    assign-Numbered id (note (multi a i)) st st' inv fresh refl refl
      (λ m g. Given-grows st st' m (omega arith) below g) (inr (refl, more))

below_note :
    (st : Order) {num index b k : ℕ}
    → st.this_note ≡ some (num, index)
    → Given st (note (multi b k))
    → (b < num) ⊎ ((b ≡ num) × (k < index))
below_note st e g = rw e at g

irrefl :
    (st : Order) {num index : ℕ}
    → st.this_note ≡ some (num, index)
    → ¬ (Given st (note (multi num index)))
irrefl st e g = let f = below_note st e g in omega arith

at_most :
    (st : Order) {num index b k : ℕ}
    → index + 1 < 2 ^ 32
    → st.this_note ≡ some (num, index)
    → Given st (note (multi b k))
    → (b < num) ⊎ ((b ≡ num) × (k < (index + 1) % 2 ^ 32))
at_most st small e g = elim (below_note st e g) [
  | inl l ↦ inl l
  | inr (p, q) ↦ inr (p, omega arith)
]

-- the index that the note counter has reached
abbrev index_of : Option (ℕ × ℕ) → ℕ
index_of none = 0
index_of (some (n, index)) = index

-- so many more pieces do not wrap a counter
abbrev HasRoom : ℕ → Order → Type 0
HasRoom n st = (st.intext_number + n < 2 ^ 32) × (index_of st.this_note + n < 2 ^ 32)

-- the three ways in which a note takes its place
place_note-keeps :
    (old : List ℕ) (id nn : ℕ) (this : Option (ℕ × ℕ)) (st st' : Order)
    → st.this_note ≡ this
    → index_of this + 1 < 2 ^ 32
    → Numbered st
    → place_note old id nn this st ≡ ok st'
    → Numbered st'
unfolding place_note
place_note-keeps old id nn none st st' e small inv h = subst Numbered (cc) (
    place_note-Numbered id nn 0 1 st st.mods (omega arith) inv (λ g. rw e at g)
      (λ b k g. absurd (rw e at g)))
place_note-keeps old id nn (some (num, index)) st st' e small inv h =
    let mods = (log_change old id st).mods in
    elim (Bool-cases (ltb nn num)) [
      | inl less ↦ absurd (ground arith)
      | inr not_less ↦ elim (Bool-cases (nn == num)) [
        | inl same ↦ subst Numbered (ground arith) (
            place_note-Numbered id num index ((index + 1) % 2 ^ 32) st mods (omega arith) inv
              (λ g. irrefl st e g) (λ b k g. at_most st small e g))
        | inr other ↦ subst Numbered (ground arith) (
            place_note-Numbered id nn 0 1 st mods (omega arith) inv
              (λ g. let f = below_note st e g in ground arith)
              (λ b k g. let f = below_note st e g in inl (ground arith)))
      ]
    ]

place-Numbered :
    (old : List ℕ) (p : ClusterPosition) (n : ℕ) (st st' : Order)
    → HasRoom (n + 1) st
    → Numbered st
    → place old p st ≡ ok st'
    → Numbered st'
unfolding place
place-Numbered old p n st st' (text_room, note_room) inv h = elim (Option-cases p.note_of) [
  | inl text ↦ subst Numbered (ground arith) (place_text-Numbered p.id st (omega arith) inv)
  | inr (nn, noted) ↦
      place_note-keeps old p.id nn st.this_note st st' refl (omega arith) inv
        (rw (noted, place) at h)
]

place_note-HasRoom :
    (old : List ℕ) (id nn : ℕ) (this : Option (ℕ × ℕ)) (n : ℕ) (st st' : Order)
    → st.intext_number + n < 2 ^ 32
    → index_of this + (n + 1) < 2 ^ 32
    → place_note old id nn this st ≡ ok st'
    → HasRoom n st'
unfolding place_note
place_note-HasRoom old id nn none n st st' text_room note_room h = ground arith
place_note-HasRoom old id nn (some (num, index)) n st st' text_room note_room h = ground arith

place-HasRoom :
    (old : List ℕ) (p : ClusterPosition) (n : ℕ) (st st' : Order)
    → HasRoom (n + 1) st
    → place old p st ≡ ok st'
    → HasRoom n st'
unfolding place
place-HasRoom old p n st st' (text_room, note_room) h = elim (Option-cases p.note_of) [
  | inl text ↦ ground arith
  | inr (nn, noted) ↦
      place_note-HasRoom old p.id nn st.this_note n st st' (omega arith) note_room
        (rw (noted, place) at h)
]

place_all-Numbered :
    (old : List ℕ) (ps : List ClusterPosition) (st st' : Order)
    → HasRoom (length ps) st
    → Numbered st
    → place_all old ps st ≡ ok st'
    → Numbered st'
unfolding place_all
place_all-Numbered old [] st st' room inv h = subst Numbered (cc) inv
place_all-Numbered old (p ∷ ps) st st' (text_room, note_room) inv h =
    let room : HasRoom (length ps + 1) st = (omega arith, omega arith) in
    elim (Result-cases (place old p st)) [
      | inl (next, e) ↦
          place_all-Numbered old ps next st' (place-HasRoom old p (length ps) st next room e)
            (place-Numbered old p (length ps) st next room inv e) (rw (e, place_all) at h)
      | inr (n, next, e) ↦ absurd (ground arith)
    ]

finish-apart :
    (db : Inputs) (r : Result)
    → ((st : Order) → r ≡ ok st → Numbered st)
    → (finish db r).1 ≡ none
    → (j k : ℕ) → occurs j (finish db r).0.cluster_ids ≡ true
    → occurs k (finish db r).0.cluster_ids ≡ true
    → (finish db r).0.cluster_note_number j ≡ (finish db r).0.cluster_note_number k
    → (is_some ((finish db r).0.cluster_note_number j) ≡ true) × (j ≡ k)
unfolding finish
finish-apart db (ok st) inv h j k oj ok' same =
    let numbered = inv st refl in
    let (n, e) = some_of_is_some (st.numbers j) (numbered.total j oj) in
    (numbered.total j oj, numbered.apart j k n oj ok' e (sym same ∙ e))
finish-apart db (non_monotonic n st) inv h j k oj ok' same = absurd (ground arith)

-- When the call succeeds on fewer than 2^32 - 1 pieces, every cluster of the new order has a number,
-- and two clusters with one number are the same cluster, whatever numbers they had before.
pub set_cluster_order-apart :
    (ps : List ClusterPosition) (db : Inputs)
    → length ps + 1 < 2 ^ 32
    → (set_cluster_order ps db).1 ≡ none
    → (j k : ℕ) → occurs j (set_cluster_order ps db).0.cluster_ids ≡ true
    → occurs k (set_cluster_order ps db).0.cluster_ids ≡ true
    → (set_cluster_order ps db).0.cluster_note_number j
      ≡ (set_cluster_order ps db).0.cluster_note_number k
    → (is_some ((set_cluster_order ps db).0.cluster_note_number j) ≡ true) × (j ≡ k)
unfolding set_cluster_order
set_cluster_order-apart ps db few =
    let fresh = start db.cluster_note_number in
    finish-apart db (place_all db.cluster_ids ps fresh) (λ st.
      place_all-Numbered db.cluster_ids ps fresh st (omega arith, omega arith)
        (start-Numbered db.cluster_note_number))
