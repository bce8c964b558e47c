-- ===== src/Roman.antt =====
-- crates/io/src/numeric/roman.rs: roman numerals. A text is the list of its characters' codes.
mod Tests
pub mod Ladder
pub mod RoundTrip
use citeproc_rs.Base.{
  ℕ, zero, suc, ◌+◌, ◌-◌, ◌%◌, ◌^◌, Bool, true, false, ◌&&◌, ◌||◌, List, [], ◌∷◌, ◌++◌, Option,
  none, some, ◌==◌, ltb, leb, if◌then◌else◌, map,
}

-- `ROMAN`: the characters, in both cases, with their values
unfoldable pub roman : List (ℕ × ℕ)
roman =
    (105, 1)
    ∷ (118, 5)
    ∷ (120, 10)
    ∷ (108, 50)
    ∷ (99, 100)
    ∷ (100, 500)
    ∷ (109, 1000)
    ∷ (73, 1)
    ∷ (86, 5)
    ∷ (88, 10)
    ∷ (76, 50)
    ∷ (67, 100)
    ∷ (68, 500)
    ∷ (77, 1000)
    ∷ []

-- `ROMAN_PAIRS`: "m", "cm", "d", "cd", "c", "xc", "l", "xl", "x", "ix", "v", "iv" and "i"
unfoldable pub roman_pairs : List (List ℕ × ℕ)
roman_pairs =
    (109 ∷ [], 1000)
    ∷ (99 ∷ 109 ∷ [], 900)
    ∷ (100 ∷ [], 500)
    ∷ (99 ∷ 100 ∷ [], 400)
    ∷ (99 ∷ [], 100)
    ∷ (120 ∷ 99 ∷ [], 90)
    ∷ (108 ∷ [], 50)
    ∷ (120 ∷ 108 ∷ [], 40)
    ∷ (120 ∷ [], 10)
    ∷ (105 ∷ 120 ∷ [], 9)
    ∷ (118 ∷ [], 5)
    ∷ (105 ∷ 118 ∷ [], 4)
    ∷ (105 ∷ [], 1)
    ∷ []

abbrev pub max_value : ℕ
max_value = 3999

-- `while n >= value`, on fuel: the text that is pushed, and what is left of `n`
unfoldable pub push_while : ℕ → List ℕ → ℕ → ℕ → List ℕ × ℕ
push_while zero name value n = ([], n)
push_while (suc fuel) name value n =
    let rest = push_while fuel name value (n - value) in
    if leb value n then (name ++ rest.0, rest.1) else ([], n)

-- the loop over the pairs
unfoldable pub push_pairs : List (List ℕ × ℕ) → ℕ → List ℕ × ℕ
unfolding push_while
push_pairs [] n = ([], n)
push_pairs ((name, value) ∷ ps) n =
    let here = push_while n name value n in
    let rest = push_pairs ps here.1 in (here.0 ++ rest.0, rest.1)

-- a result, or the panic of `assert!(n == 0)`
pub data Outcome : Type 0 where
  panicked : Outcome
  returned : Option (List ℕ) → Outcome

unfoldable pub to : ℕ → Outcome
unfolding push_pairs roman_pairs
to n =
    let pushed = push_pairs roman_pairs n in
    if leb n 0 || ltb max_value n
    then returned none
    else if pushed.1 == 0
    then returned (some pushed.0)
    else panicked

-- `ROMAN.iter().find`
unfoldable pub value_in : List (ℕ × ℕ) → ℕ → Option ℕ
value_in [] c = none
value_in ((ch, v) ∷ rest) c = let later = value_in rest c in if ch == c then some v else later

-- a character's value is taken off or added, in the state `(n, max)`
unfoldable pub add_value : Option ℕ → Option (ℕ × ℕ) → Option (ℕ × ℕ)
add_value _ none = none
add_value none (some _) = none
add_value (some val) (some (n, max)) =
    if ltb val max then some ((n + 2 ^ 32 - val) % 2 ^ 32, max) else some ((n + val) % 2 ^ 32, val)

-- the loop over `txt.chars().rev()`
unfoldable pub read_rev : List ℕ → Option (ℕ × ℕ)
unfolding add_value value_in roman
read_rev [] = some (0, 0)
read_rev (c ∷ cs) = add_value (value_in roman c) (read_rev cs)

unfoldable pub from_lax : List ℕ → Option ℕ
unfolding read_rev
from_lax txt = elim (read_rev txt) [ none ↦ none | some (n, _) ↦ some n ]

-- ASCII lower case of a character
unfoldable pub lower : ℕ → ℕ
lower c = if leb 65 c && leb c 90 then c + 32 else c

-- `eq_ignore_ascii_case`
unfoldable pub eq_ignore_ascii_case : List ℕ → List ℕ → Bool
unfolding lower
eq_ignore_ascii_case [] [] = true
eq_ignore_ascii_case (x ∷ xs) (y ∷ ys) = (lower x == lower y) && eq_ignore_ascii_case xs ys
eq_ignore_ascii_case _ _ = false

-- `from`: `none` in the outer option is a panic of `to`
unfoldable pub from_checked : List ℕ → ℕ → Outcome → Option (Option ℕ)
unfolding eq_ignore_ascii_case
from_checked txt n panicked = none
from_checked txt n (returned none) = some none
from_checked txt n (returned (some x)) = some (if eq_ignore_ascii_case x txt then some n else none)

unfoldable pub from_value : List ℕ → Option ℕ → Option (Option ℕ)
unfolding from_checked to
from_value txt none = some none
from_value txt (some n) = from_checked txt n (to n)

unfoldable pub from : List ℕ → Option (Option ℕ)
unfolding from_lax from_value
from txt = from_value txt (from_lax txt)
