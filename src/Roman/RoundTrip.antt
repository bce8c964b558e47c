-- ===== src/Roman/RoundTrip.antt =====
-- Numerals are read back as their numbers.
use citeproc_rs.Base.{
  ==_iff, ◌==◌, ◌&&◌, ◌≢◌, ℕ, ◌-◌, ◌≤◌, ◌<◌, true, List, [], ◌∷◌, Option, none, some, ◌≡◌, refl, ap,
  ◌∙◌, sym, arith, leb, if◌then◌else◌,
}
use citeproc_rs.Roman.{
  read_rev, add_value, from_value, roman, roman_pairs, value_in, to, from, from_lax, returned,
  eq_ignore_ascii_case, from_checked, lower, push_pairs,
}
use citeproc_rs.Roman.Ladder.{Rung, Ladder, bottom, rung, push_pairs-read, push_pairs-nothing_left}

-- one character with a value at least the largest so far
single-Rung : (c v : ℕ) → value_in roman c ≡ some v → 0 < v → Rung (c ∷ []) v v
unfolding read_rev add_value
single-Rung c v e pos = record {
  adds = λ t n m r le small. ground (arith, r, e, le, small);
  positive = pos;
}

-- a smaller character before a larger one
pair-Rung :
    (c d v w : ℕ)
    → value_in roman c ≡ some v
    → value_in roman d ≡ some w
    → v < w
    → w ≤ 1000
    → Rung (c ∷ d ∷ []) (w - v) w
unfolding read_rev add_value
pair-Rung c d v w e f less small_w = record {
  adds = λ t n m r le small. ground (arith, r, e, f, le, small);
  positive = omega (arith, less);
}

single-Ladder :
    (c v b : ℕ) {ps : List (List ℕ × ℕ)}
    → value_in roman c ≡ some v
    → 0 < v
    → v ≤ b
    → Ladder ps v
    → Ladder ((c ∷ [], v) ∷ ps) b
single-Ladder c v b e pos le l = rung _ _ v _ _ le (single-Rung c v e pos) l

pair-Ladder :
    (c d v w b : ℕ) {ps : List (List ℕ × ℕ)}
    → value_in roman c ≡ some v
    → value_in roman d ≡ some w
    → v < w
    → w ≤ 1000
    → w ≤ b
    → Ladder ps w
    → Ladder ((c ∷ d ∷ [], w - v) ∷ ps) b
pair-Ladder c d v w b e f less small le l = rung _ _ w _ _ le (pair-Rung c d v w e f less small) l

units-Ladder :
    Ladder
      ((120 ∷ [], 10)
        ∷ (105 ∷ 120 ∷ [], 9)
        ∷ (118 ∷ [], 5)
        ∷ (105 ∷ 118 ∷ [], 4)
        ∷ (105 ∷ [], 1)
        ∷ [])
      50
unfolding value_in roman
units-Ladder = single-Ladder 120 10 50 refl (omega arith) (omega arith) (
    pair-Ladder 105 120 1 10 10 refl refl (omega arith) (omega arith) (omega arith) (
      single-Ladder 118 5 10 refl (omega arith) (omega arith) (
        pair-Ladder 105 118 1 5 5 refl refl (omega arith) (omega arith) (omega arith)
          (single-Ladder 105 1 5 refl (omega arith) (omega arith) (bottom 1)))))

roman-Ladder : Ladder roman_pairs 1000
unfolding roman_pairs value_in roman
roman-Ladder = single-Ladder 109 1000 1000 refl (omega arith) (omega arith) (
    pair-Ladder 99 109 100 1000 1000 refl refl (omega arith) (omega arith) (omega arith) (
      single-Ladder 100 500 1000 refl (omega arith) (omega arith) (
        pair-Ladder 99 100 100 500 500 refl refl (omega arith) (omega arith) (omega arith) (
          single-Ladder 99 100 500 refl (omega arith) (omega arith) (
            pair-Ladder 120 99 10 100 100 refl refl (omega arith) (omega arith) (omega arith) (
              single-Ladder 108 50 100 refl (omega arith) (omega arith) (
                pair-Ladder 120 108 10 50 50 refl refl (omega arith) (omega arith) (omega arith)
                  units-Ladder)))))))

value_in-lower : (c : ℕ) → value_in roman c ≡ value_in roman (lower c)
unfolding value_in roman lower
value_in-lower c = ground arith

same_value : (c d : ℕ) → (lower c == lower d) ≡ true → value_in roman c ≡ value_in roman d
same_value c d h =
    value_in-lower c
    ∙ (ap (value_in roman) ((==_iff (lower c) (lower d)).0 h) ∙ sym (value_in-lower d))

read_rev-case : (t u : List ℕ) → eq_ignore_ascii_case t u ≡ true → read_rev t ≡ read_rev u
unfolding read_rev eq_ignore_ascii_case
read_rev-case [] [] h = refl
read_rev-case (c ∷ cs) (d ∷ ds) h =
    let first : (lower c == lower d) ≡ true = ground (arith, h) in
    let rest : eq_ignore_ascii_case cs ds ≡ true = ground (arith, h) in
    ap (λ v. add_value v (read_rev cs)) (same_value c d first)
    ∙ ap (add_value (value_in roman d)) (read_rev-case cs ds rest)
read_rev-case [] (d ∷ ds) h = ground (arith, h)
read_rev-case (c ∷ cs) [] h = ground (arith, h)

abbrev first_of : Option (ℕ × ℕ) → Option ℕ
first_of none = none
first_of (some (n, _)) = some n

left_nothing : (n : ℕ) → (push_pairs roman_pairs n).1 ≡ 0
left_nothing n = push_pairs-nothing_left roman_pairs n (unfold roman_pairs in refl)

read_rev-numeral :
    (n : ℕ) → n ≤ 3999 → (m : ℕ) × (read_rev (push_pairs roman_pairs n).0 ≡ some (n, m))
read_rev-numeral n small =
    let (m, read, low, left) = push_pairs-read roman_pairs 1000 n roman-Ladder small in
    let none_left = left_nothing n in (m, read ∙ ap (λ j. some (j, m)) (omega (arith, none_left)))

to_lem :
    (n : ℕ)
    → to n ≡ returned (if leb 1 n && leb n 3999 then some (push_pairs roman_pairs n).0 else none)
unfolding to
to_lem n = ground (arith, left_nothing n)

from_value-some : (txt : List ℕ) (o : Option ℕ) → from_value txt o ≢ none
unfolding from_value from_checked
from_value-some txt none h = cc h
from_value-some txt (some n) h = ground (arith, to_lem n, h)

-- The numeral of a number is returned for the numbers from 1 to 3999 and for no other, the assertion
-- that nothing is left of the number never fails, and reading any text back does not fail it either.
to-Total :
    (n : ℕ) (txt : List ℕ)
    → (to n ≡ returned (if leb 1 n && leb n 3999 then some (push_pairs roman_pairs n).0 else none))
      × (from txt ≢ none)
unfolding from
to-Total n txt = (to_lem n, from_value-some txt (from_lax txt))

numeral_inverse :
    (n : ℕ) (t : List ℕ)
    → to n ≡ returned (some t)
    → (n ≤ 3999) × (t ≡ (push_pairs roman_pairs n).0)
unfolding to
numeral_inverse n t h = ground (arith, left_nothing n)

-- The numeral of a number, in any capitalisation, is read as that number.
pub from-to :
    (n : ℕ) (t u : List ℕ)
    → to n ≡ returned (some t)
    → eq_ignore_ascii_case t u ≡ true
    → from u ≡ some (some n)
unfolding from from_lax from_value from_checked
from-to n t u h same =
    let (small, e) = numeral_inverse n t h in
    let (m, read) = read_rev-numeral n small in
    let read_u : read_rev u ≡ some (n, m) = sym (read_rev-case t u same) ∙ (ap read_rev e ∙ read) in
    ap (λ o. from_value u (first_of o)) read_u ∙ (ap (from_checked u n) h ∙ rw same refl)
