-- ===== src/Dates/Order.antt =====
-- The order of dates: total for dates with months, and with a cycle where seasons come in.
use citeproc_rs.Base.{
  ◌≤◌, ◌<◌, Ordering, Bool, true, false, not, Option, none, some, ◌≡◌, refl, arith,
  reverse_ordering, is_some, then_with, ◌||◌,
}
use citeproc_rs.Dates.{
  Date, compare_date, DateOrRange, single, range, literal, partial_cmp_range, with_circa,
  is_uncertain_date,
}

-- Comparing two dates the other way round reverses the answer.
pub compare_date-swap : (a b : Date) → compare_date b a ≡ reverse_ordering (compare_date a b)
unfolding compare_date
compare_date-swap a b = ground arith

-- Dates with a month or none, and no season, are ordered transitively.
compare_date_trans :
    (a b c : Date)
    → a.month ≤ 12
    → b.month ≤ 12
    → c.month ≤ 12
    → compare_date a b ≡ Ordering.lt
    → compare_date b c ≡ Ordering.lt
    → compare_date a c ≡ Ordering.lt
unfolding compare_date
compare_date_trans a b c ma mb mc h k = ground arith

-- With a season the order has cycles: where a season's day lies between the days of two dates of the
-- same year whose months are in the other order, each of the three comes before the next.
pub compare_date_cycle :
    (early late season : Date)
    → early.year ≡ late.year
    → season.year ≡ early.year
    → early.month < late.month
    → late.month ≤ 12
    → 12 < season.month
    → late.day < season.day
    → season.day < early.day
    → (compare_date early late ≡ Ordering.lt)
      × (compare_date late season ≡ Ordering.lt)
      × (compare_date season early ≡ Ordering.lt)
unfolding compare_date
compare_date_cycle early late season y y' m m' s d d' = ground arith

abbrev pub reverse_answer : Option Ordering → Option Ordering
reverse_answer none = none
reverse_answer (some o) = some (reverse_ordering o)

abbrev pub is_literal : DateOrRange → Bool
is_literal (literal _ _) = true
is_literal _ = false

then_with-reverse :
    (a b c d : Ordering)
    → c ≡ reverse_ordering a
    → d ≡ reverse_ordering b
    → then_with c d ≡ reverse_ordering (then_with a b)
then_with-reverse a b c d h k = ground arith

-- Two dates or ranges have an order exactly when neither is a literal, and comparing them the
-- other way round reverses it.
pub partial_cmp_range-swap :
    (a b : DateOrRange)
    → (is_some (partial_cmp_range a b) ≡ not (is_literal a || is_literal b))
      × (partial_cmp_range b a ≡ reverse_answer (partial_cmp_range a b))
unfolding partial_cmp_range
partial_cmp_range-swap (literal _ _) b = ground arith
partial_cmp_range-swap (single a) (single b) = ground (arith, compare_date-swap a b)
partial_cmp_range-swap (range a1 a2) (single b) =
    ground (arith, compare_date-swap a1 b, compare_date-swap a2 b)
partial_cmp_range-swap (single a) (range b1 b2) =
    ground (arith, compare_date-swap a b1, compare_date-swap a b2)
partial_cmp_range-swap (range a1 a2) (range b1 b2) =
    ground (arith, compare_date-swap a1 b1, compare_date-swap a2 b2)
partial_cmp_range-swap (single a) (literal _ _) = ground arith
partial_cmp_range-swap (range a1 a2) (literal _ _) = ground arith

compare_date-circa :
    (a b : Date) (c d : Bool)
    → compare_date (record a { circa = c }) (record b { circa = d }) ≡ compare_date a b
unfolding compare_date
compare_date-circa a b c d = refl

-- Marking a date or range as uncertain, or as certain, is read back, and no order depends on it.
with_circa_lem :
    (a b : DateOrRange) (c : Bool)
    → (is_uncertain_date (with_circa a c) ≡ c)
      × (partial_cmp_range (with_circa a c) b ≡ partial_cmp_range a b)
unfolding with_circa is_uncertain_date partial_cmp_range compare_date
with_circa_lem a b c = ground arith
