-- ===== src/Pages/Expansion.antt =====
-- A shortened second page is written out in full again.
use native.Mathlib.Nat.{
  mod-eq_of_lt, mod-add-div', mul-add-div_right, mul-add-mod_self_right, div-eq_of_lt,
}
use citeproc_rs.Base.{
  ℕ, ◌+◌, ◌-◌, ◌*◌, ◌/◌, ◌%◌, ◌^◌, ◌≤◌, ◌<◌, false, none, some, ◌≡◌, ap, ◌∙◌, arith, ◌==◌,
  if◌then◌else◌,
}
use citeproc_rs.Pages.{expand}

-- What the code asserts of the logarithm: the result is not above the number, and ten times it is.
abbrev pub IsClosest : (ℕ → ℕ) → Type 0
IsClosest closest = (n : ℕ) → 0 < n → (closest n ≤ n) × (n < closest n * 10)

kept_lem : (a x t : ℕ) → x + t ≡ a → a - x ≡ t
kept_lem a x t e = omega (arith, e)

-- the sum of the kept and the written digits
kept_sum :
    (a m b : ℕ)
    → 0 < m
    → b < m
    → ((a - a % m + b % m) ≡ a / m * m + b)
      × (((a / m * m + b) % m ≡ b) × ((a / m * m + b) / m ≡ a / m))
kept_sum a m b pos lt =
    let e = mod-add-div' a m in
    let kept = kept_lem a (a % m) (a / m * m) e in
    (
      ap (λ t. t + b % m) kept ∙ ap (λ t. a / m * m + t) (mod-eq_of_lt lt),
      (
        mul-add-mod_self_right (a / m) m b ∙ mod-eq_of_lt lt,
        mul-add-div_right pos (a / m) b ∙ (ap (λ t. a / m + t) (div-eq_of_lt lt) ∙ omega arith),
      ),
    )

small_lem : (a x t b : ℕ) → x + t ≡ a → a + b < 2 ^ 32 → t + b < 2 ^ 32
small_lem a x t b e h = omega (arith, e, h)

-- no bit is lost
small_sum : (a m b : ℕ) → 0 < m → a + b < 2 ^ 32 → a / m * m + b < 2 ^ 32
small_sum a m b pos h = small_lem a (a % m) (a / m * m) b (mod-add-div' a m) h

-- The second page takes the digits that it leaves out from the first: where m is the power of ten
-- just above the number b that is written, the page is b below m and the first page a above, for a
-- number b that is not 0, an m below 2^32, that is a b of at most nine digits, and a sum a + b below
-- 2^32.
pub expand-digits :
    (closest : ℕ → ℕ) (a b : ℕ)
    → IsClosest closest
    → 0 < b
    → closest b * 10 < 2 ^ 32
    → a + b < 2 ^ 32
    → (page : ℕ) × ((expand closest a b ≡ some page)
        × ((page % (closest b * 10) ≡ b) × (page / (closest b * 10) ≡ a / (closest b * 10))))
unfolding expand
expand-digits closest a b is_closest pos mask_fits small =
    let (below, above) = is_closest b pos in
    let m = closest b * 10 in
    let unwrapped : m % 2 ^ 32 ≡ m = omega (arith, mask_fits) in
    let m_pos : 0 < m = omega (arith, above, pos) in
    let not_zero : (m == 0) ≡ false = ground (arith, m_pos) in
    let (sum, (rest, top)) = kept_sum a m b m_pos above in
    let page = a / m * m + b in
    let fits : (a - a % m + b % m) % 2 ^ 32 ≡ page =
      ap (λ t. t % 2 ^ 32) sum ∙ mod-eq_of_lt (small_sum a m b m_pos (omega (arith, small))) in
    (
      page,
      (
        ap (λ k. if k == 0 then none else some ((a - a % k + b % k) % 2 ^ 32)) unwrapped
            ∙ (ap (λ t. if t then none else some ((a - a % m + b % m) % 2 ^ 32)) not_zero
                ∙ ap (λ t. some t) fits),
        (rest, top),
      ),
    )
