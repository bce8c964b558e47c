-- ===== src/Roman/Ladder.antt =====
-- Pushing names, and reading what was pushed.
use citeproc_rs.Base.{
  ◌==◌, ℕ, zero, suc, ◌+◌, ◌-◌, ◌≤◌, ◌<◌, Bool, true, false, List, [], ◌∷◌, ◌++◌, some, ◌≡◌, refl,
  ap, ◌∙◌, arith, leb, Bool-cases, inl, inr,
}
use citeproc_rs.Roman.{push_while, push_pairs, read_rev}

-- In front of a text whose largest value is at most `top`, a name adds its value, and `top` becomes
-- the largest value.
pub record Rung (name : List ℕ) (value top : ℕ) : Type 0 where
  pub adds :
      (t : List ℕ) (n m : ℕ)
      → read_rev t ≡ some (n, m)
      → m ≤ top
      → n + value ≤ 3999
      → read_rev (name ++ t) ≡ some (n + value, top)
  pub positive : 0 < value

-- The pairs go down: each adds in front of those after it.
pub data Ladder : List (List ℕ × ℕ) → ℕ → Type 0 where
  bottom : (b : ℕ) → Ladder [] b
  rung :
      (name : List ℕ) (value top b : ℕ) (ps : List (List ℕ × ℕ))
      → top ≤ b
      → Rung name value top
      → Ladder ps top
      → Ladder ((name, value) ∷ ps) b

append_assoc : {A : Type 0} (xs ys zs : List A) → (xs ++ ys) ++ zs ≡ xs ++ (ys ++ zs)
append_assoc [] ys zs = refl
append_assoc (x ∷ xs) ys zs = ap (λ l. x ∷ l) (append_assoc xs ys zs)

push_while-left : (fuel : ℕ) (name : List ℕ) (value n : ℕ) → (push_while fuel name value n).1 ≤ n
unfolding push_while
push_while-left zero name value n = omega arith
push_while-left (suc fuel) name value n = elim (Bool-cases (leb value n)) [
  | inl e ↦ rw e (omega (arith, push_while-left fuel name value (n - value)))
  | inr e ↦ rw e (omega arith)
]

push_while-bounded :
    (fuel : ℕ) (name : List ℕ) (value n : ℕ)
    → 0 < value
    → n ≤ fuel
    → (push_while fuel name value n).1 < value
unfolding push_while
push_while-bounded zero name value n pos enough = omega (arith, pos, enough)
push_while-bounded (suc fuel) name value n pos enough = elim (Bool-cases (leb value n)) [
  | inl e ↦
      let fits : value ≤ n = ground (arith, e) in
      rw e (push_while-bounded fuel name value (n - value) pos (omega (arith, pos, enough, fits)))
  | inr e ↦ rw e (ground (arith, e))
]

-- The text that the inner loop pushes in front of `t` is read as what the loop took from `n`.
push_while-read :
    (fuel : ℕ) (name : List ℕ) (value top n : ℕ) (t : List ℕ) (k m : ℕ)
    → Rung name value top
    → read_rev t ≡ some (k, m)
    → m ≤ top
    → k + n ≤ 3999 + (push_while fuel name value n).1
    → (m' : ℕ) × (read_rev ((push_while fuel name value n).0 ++ t)
        ≡ some (k + (n - (push_while fuel name value n).1), m'))
      × (m' ≤ top)
unfolding push_while
push_while-read zero name value top n t k m r e low small =
    (m, e ∙ ap (λ j. some (j, m)) (omega arith), low)
push_while-read (suc fuel) name value top n t k m r e low small = elim (Bool-cases (leb value n)) [
  | inl here ↦
      let fits : value ≤ n = ground (arith, here) in
      let rest = push_while fuel name value (n - value) in
      let left = push_while-left fuel name value (n - value) in
      let small' : k + n ≤ 3999 + rest.1 = rw here at small in
      let (m', read, low') =
        push_while-read fuel name value top (n - value) t k m r e low (omega (arith, small')) in
      let total : (k + ((n - value) - rest.1)) + value ≡ k + (n - rest.1) =
        omega (arith, fits, left) in
      let added =
        r.adds (rest.0 ++ t) (k + ((n - value) - rest.1)) m' read low'
          (omega (arith, total, small')) in
      let joined =
        ap read_rev (append_assoc name rest.0 t) ∙ (added ∙ ap (λ j. some (j, top)) total) in
      rw here (top, joined, omega arith)
  | inr gone ↦ rw gone (m, e ∙ ap (λ j. some (j, m)) (omega arith), low)
]

-- Reading what was pushed along a ladder gives back what was taken.
pub push_pairs-read :
    (ps : List (List ℕ × ℕ)) (b n : ℕ)
    → Ladder ps b
    → n ≤ 3999
    → (m : ℕ) × (read_rev (push_pairs ps n).0 ≡ some (n - (push_pairs ps n).1, m))
      × (m ≤ b)
      × ((push_pairs ps n).1 ≤ n)
unfolding push_pairs read_rev
push_pairs-read [] b n l small = (0, ap (λ j. some (j, 0)) (omega arith), omega arith, omega arith)
push_pairs-read ((name, value) ∷ ps) b n (rung _ _ top _ _ le r l) small =
    let here = push_while n name value n in
    let left = push_while-left n name value n in
    let (m, read, low, left') = push_pairs-read ps top here.1 l (omega (arith, left, small)) in
    let rest = push_pairs ps here.1 in
    let (m', read', low') =
      push_while-read n name value top n rest.0 (here.1 - rest.1) m r read low
        (omega (arith, small)) in
    (
      m',
      read' ∙ ap (λ j. some (j, m')) (omega (arith, left, left')),
      omega (arith, low', le),
      omega (arith, left, left'),
    )

-- Where the last pair of a ladder has the value 1, nothing is left.
abbrev pub ends_in_one : List (List ℕ × ℕ) → Bool
ends_in_one [] = false
ends_in_one ((name, value) ∷ []) = value == 1
ends_in_one (p ∷ q ∷ ps) = ends_in_one (q ∷ ps)

pub push_pairs-nothing_left :
    (ps : List (List ℕ × ℕ)) (n : ℕ) → ends_in_one ps ≡ true → (push_pairs ps n).1 ≡ 0
unfolding push_pairs
push_pairs-nothing_left [] n h = ground (arith, h)
push_pairs-nothing_left ((name, value) ∷ []) n h =
    let one : value ≡ 1 = ground (arith, h) in
    omega (arith, one, push_while-bounded n name value n (omega (arith, one)) (omega arith))
push_pairs-nothing_left ((name, value) ∷ q ∷ ps) n h =
    push_pairs-nothing_left (q ∷ ps) (push_while n name value n).1 h
