-- ===== src/Pages/Tests.antt =====
-- The power of ten below a number as a function, and page ranges of the source's own tests.
use citeproc_rs.Base.{
  ℕ, zero, suc, ◌*◌, ◌/◌, ◌%◌, ◌≤◌, ◌<◌, true, false, none, some, ◌≡◌, refl, arith, ltb, Bool-cases,
  inl, inr,
}
use citeproc_rs.Pages.{chicago, minimal, expand, truncate_prf, truncate_diff}
use citeproc_rs.Pages.Expansion.{IsClosest, expand-digits}

-- `n` is at most the fuel
abbrev power_from : ℕ → ℕ → ℕ
power_from zero n = 1
power_from (suc fuel) n = elim (ltb n 10) [ true ↦ 1 | false ↦ power_from fuel (n / 10) * 10 ]

abbrev power_below : ℕ → ℕ
power_below n = power_from n n

power_from-closest :
    (fuel n : ℕ) → 0 < n → n ≤ fuel → (power_from fuel n ≤ n) × (n < power_from fuel n * 10)
power_from-closest zero n h k = (omega (arith, h, k), omega (arith, h, k))
power_from-closest (suc fuel) n h k = elim (Bool-cases (ltb n 10)) [
  | inl e ↦ ground (arith, e, h)
  | inr e ↦
      let ih = power_from-closest fuel (n / 10) (ground (arith, e)) (ground (arith, k, h, e)) in
      ground (arith, e, ih)
]

power_below-IsClosest : IsClosest power_below
power_below-IsClosest n h = power_from-closest n n h (omega arith)

expand-digits_example :
    (page : ℕ) × ((expand power_below 133 54 ≡ some page)
      × ((page % (power_below 54 * 10) ≡ 54)
          × (page / (power_below 54 * 10) ≡ 133 / (power_below 54 * 10))))
expand-digits_example =
    expand-digits power_below 133 54 power_below-IsClosest (omega arith) (omega arith) (omega arith)

expands : expand power_below 133 54 ≡ some 154
unfolding expand
expands = refl

keeps_two : truncate_diff power_below 121 125 2 ≡ 25
unfolding truncate_diff
keeps_two = refl

chicago_pair : truncate_prf power_below chicago 505 517 ≡ some 17
unfolding truncate_prf
chicago_pair = refl

chicago_three : truncate_prf power_below chicago 13792 13803 ≡ some 803
unfolding truncate_prf
chicago_three = refl

chicago_four : truncate_prf power_below chicago 1496 1504 ≡ some 1504
unfolding truncate_prf
chicago_four = refl

minimal_one : truncate_prf power_below minimal 101 108 ≡ some 8
unfolding truncate_prf
minimal_one = refl

-- of the page 0 there is no power of ten below, and the remainder by zero panics
zero_panics : (closest : ℕ → ℕ) → closest 0 ≡ 0 → expand closest 5 0 ≡ none
unfolding expand
zero_panics closest h = rw h refl

-- The power of ten above a number of ten digits does not fit, and the page is lost.
mask_wraps : expand power_below 1000000000 1500000000 ≡ some 89934592
unfolding expand
mask_wraps = refl
