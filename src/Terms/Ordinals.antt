-- ===== src/Terms/Ordinals.antt =====
-- Which ordinal terms stand in for a number's own.
use citeproc_rs.Base.{
  ℕ, suc, ◌%◌, ◌<◌, ◌≤◌, Bool, ◌&&◌, List, [], ◌∷◌, ◌++◌, some, ◌≡◌, arith, ltb, leb, if◌then◌else◌,
  ap, ◌∙◌, Bool-cases, sym, inl, inr,
}
use citeproc_rs.Base.Iter.{drain}
use citeproc_rs.Terms.{
  OrdinalTerm, ordinal, mod100, last_digit, last_two_digits, whole_number, Gender, from_number_long,
  from_number_for_selector, to_number, next_ordinal, ordinal_fallback, selector_fallback,
  genders_of, with_genders,
}

-- the terms after a number's own, by how much of the number they go by
abbrev pub mod100_chain : ℕ → List OrdinalTerm
mod100_chain n =
    mod100 (n % 100) whole_number
    ∷ mod100 (n % 100) last_two_digits
    ∷ mod100 (n % 10) last_digit
    ∷ ordinal
    ∷ []

abbrev pub is_long_ordinal : ℕ → Bool → Bool
is_long_ordinal n is_long = is_long && (ltb 0 n && leb n 10)

from_number_long-next :
    (n : ℕ)
    → 0 < n
    → n ≤ 10
    → (to_number (from_number_long n) ≡ n)
      × (next_ordinal (from_number_long n) ≡ some (mod100 n whole_number))
unfolding from_number_long to_number next_ordinal
from_number_long-next n pos small = ground arith

mod100-fallback :
    (k n : ℕ)
    → ordinal_fallback (suc (suc (suc (suc k)))) (mod100 (n % 100) whole_number)
      ≡ some (mod100_chain n)
unfolding ordinal_fallback drain next_ordinal
mod100-fallback k n = ground arith

selector_fallback-some :
    (fuel : ℕ) (t : OrdinalTerm) (gender : Gender) (ts : List OrdinalTerm)
    → ordinal_fallback fuel t ≡ some ts
    → selector_fallback fuel (t, gender) ≡ some (with_genders gender ts)
unfolding selector_fallback genders_of
selector_fallback-some fuel t gender ts e = ap (genders_of gender) e

ordinal_fallback-next :
    (fuel : ℕ) (t t' : OrdinalTerm) (ts : List OrdinalTerm)
    → next_ordinal t ≡ some t'
    → ordinal_fallback fuel t' ≡ some ts
    → ordinal_fallback (suc fuel) t ≡ some (t ∷ ts)
unfolding ordinal_fallback drain
ordinal_fallback-next fuel t t' ts e h = ground (arith, e, h)

long-fallback :
    (n k : ℕ)
    → 0 < n
    → n ≤ 10
    → ordinal_fallback (suc (suc (suc (suc (suc k))))) (from_number_long n)
      ≡ some (from_number_long n ∷ mod100_chain n)
long-fallback n k pos small =
    let whole : n % 100 ≡ n = omega (arith, small) in
    ordinal_fallback-next (suc (suc (suc (suc k)))) (from_number_long n)
      (mod100 (n % 100) whole_number) (mod100_chain n)
      ((from_number_long-next n pos small).1 ∙ ap (λ j. some (mod100 j whole_number)) (sym whole))
      (mod100-fallback k n)

-- The terms tried for a number are, in this order: its long ordinal, if long ones are wanted and the
-- number is from 1 to 10; the terms for its last two digits as a whole number and as digits, and the
-- term for its last digit; and the plain ordinal. Each is tried in the gender first, and then in
-- the neuter. Five steps of fuel are enough, and the first of the terms stands for the number
-- modulo 100.
pub selector_fallback-from_number :
    (n : ℕ) (is_long : Bool) (gender : Gender) (k : ℕ)
    → (selector_fallback
          (suc (suc (suc (suc (suc k)))))
          (from_number_for_selector n is_long, gender)
        ≡ some (
            with_genders gender (
              (if is_long_ordinal n is_long then from_number_long n ∷ [] else [])
              ++ mod100_chain n)))
      × (to_number (from_number_for_selector n is_long) ≡ n % 100)
unfolding from_number_for_selector
selector_fallback-from_number n is_long gender k = elim (Bool-cases (is_long_ordinal n is_long)) [
  | inl e ↦
      let pos : 0 < n = ground (arith, e) in
      let small : n ≤ 10 = ground (arith, e) in
      let whole : n % 100 ≡ n = omega (arith, small) in
      rw e (
        selector_fallback-some (suc (suc (suc (suc (suc k))))) (from_number_long n) gender
            (from_number_long n ∷ mod100_chain n) (long-fallback n k pos small),
        (from_number_long-next n pos small).0 ∙ sym whole,
      )
  | inr e ↦ rw e (
    selector_fallback-some (suc (suc (suc (suc (suc k))))) (mod100 (n % 100) whole_number) gender
        (mod100_chain n) (mod100-fallback (suc k) n),
    unfold to_number in omega arith,
  )
]
