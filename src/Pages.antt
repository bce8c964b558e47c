-- ===== src/Pages.antt =====
-- crates/proc/src/page_range.rs: the second page of a range, shortened by the format of the style. The
-- power of ten just below a number, which the code takes from a floating-point logarithm, is a
-- parameter; a remainder by zero, which panics, is the none of an Option.
pub mod Expansion
mod Tests
use citeproc_rs.Base.{
  ℕ, zero, suc, ◌+◌, ◌-◌, ◌*◌, ◌/◌, ◌%◌, ◌^◌, Bool, true, false, not, ◌&&◌, ◌||◌, Option, none,
  some, ◌==◌, ltb, if◌then◌else◌,
}

pub data PageRangeFormat : Type 0 where
  chicago minimal minimal_two expanded : PageRangeFormat

-- `DigitsBase10`
pub record Digits : Type 0 where
  pub mask : ℕ
  pub num : ℕ

-- the digit at the mask, and the next mask
unfoldable pub digit : Digits → ℕ
digit d = d.num / d.mask % 10

unfoldable pub advance : Digits → Digits
advance d = record d { mask = d.mask / 10 }

-- `acc *= 10; acc += digit`
unfoldable pub push_digit : ℕ → ℕ → ℕ
push_digit acc d = (acc * 10 + d) % 2 ^ 32

-- `while iter_a.mask > iter_b.mask`, with as many rounds as a u32 has digits
unfoldable pub skip_digits : ℕ → ℕ → Digits → Digits
unfolding advance
skip_digits zero mask a = a
skip_digits (suc fuel) mask a =
    let rest = skip_digits fuel mask (advance a) in if ltb mask a.mask then rest else a

-- the accumulated number, and whether the difference has started
pub record Accumulated : Type 0 where
  pub diff_started : Bool
  pub acc : ℕ

-- `while iter_b.mask > iter_a.mask`
unfoldable pub take_digits : ℕ → ℕ → Digits → Accumulated → Digits × Accumulated
unfolding advance digit push_digit
take_digits zero mask b s = (b, s)
take_digits (suc fuel) mask b s =
    let rest =
      take_digits fuel mask (advance b)
        (record { diff_started = true; acc = push_digit s.acc (digit b) }) in
    if ltb mask b.mask then rest else (b, s)

-- the difference starts for the digits that are always kept
unfoldable pub start_at : ℕ → ℕ → Bool → Bool
start_at mask min_mask started = started || (mask * 10 % 2 ^ 32 == min_mask)

unfoldable pub zip_step : ℕ → Digits → Digits → Accumulated → Accumulated
unfolding digit push_digit start_at advance
zip_step min_mask a b s =
    let started = s.diff_started || not (digit a == digit b) in
    record {
      diff_started = start_at (advance a).mask min_mask started;
      acc = if started then push_digit s.acc (digit b) else s.acc;
    }

-- the loop over both, until a mask is 0
unfoldable pub zip_digits : ℕ → ℕ → Digits → Digits → Accumulated → ℕ
unfolding zip_step advance
zip_digits zero min_mask a b s = s.acc
zip_digits (suc fuel) min_mask a b s =
    let rest = zip_digits fuel min_mask (advance a) (advance b) (zip_step min_mask a b s) in
    if (a.mask == 0) || (b.mask == 0) then s.acc else rest

-- `-` on u32
unfoldable pub wrapping_diff : ℕ → ℕ → ℕ
wrapping_diff a b = (a + 2 ^ 32 - b) % 2 ^ 32

module _ (closest_smaller_power_of_10 : ℕ → ℕ) where
  -- `DigitsBase10::new`
  unfoldable pub digits : ℕ → Digits
  digits num = record { mask = if num == 0 then 1 else closest_smaller_power_of_10 num; num = num }

  -- for at least ten rounds
  unfoldable pub truncate_from : ℕ → Digits → Digits → Accumulated → ℕ
  unfolding start_at zip_digits
  truncate_from min_mask a b s =
      zip_digits 10 min_mask a b
        (record s { diff_started = start_at a.mask min_mask s.diff_started })

  unfoldable pub truncate_diff : ℕ → ℕ → ℕ → ℕ
  unfolding digits skip_digits take_digits truncate_from
  truncate_diff a b min =
      let iter_a = skip_digits 10 (digits b).mask (digits a) in
      let (iter_b, s) =
        take_digits 10 iter_a.mask (digits b) (record { diff_started = false; acc = 0 }) in
      if ltb b a then b else truncate_from (10 ^ min) iter_a iter_b s

  unfoldable pub expand : ℕ → ℕ → Option ℕ
  expand a b =
      let mask = closest_smaller_power_of_10 b * 10 % 2 ^ 32 in
      if mask == 0 then none else some ((a - a % mask + b % mask) % 2 ^ 32)

  -- four digits where three are different
  unfoldable pub chicago_thousands : ℕ → ℕ → ℕ
  unfolding truncate_diff
  chicago_thousands first second =
      let chopped = truncate_diff first second 2 in
      if closest_smaller_power_of_10 chopped == 100 then truncate_diff first second 4 else chopped

  unfoldable pub chicago_of : ℕ → ℕ → ℕ
  unfolding truncate_diff chicago_thousands wrapping_diff
  chicago_of first second =
      let mod100 = first % 100 in
      let delta = wrapping_diff second first in
      if ltb first 100 || (mod100 == 0)
      then second
      else if ltb mod100 10 && ltb delta 90
      then truncate_diff first second 1
      else if closest_smaller_power_of_10 first == 1000
      then chicago_thousands first second
      else truncate_diff first second 2

  unfoldable pub format_range : PageRangeFormat → ℕ → ℕ → ℕ
  unfolding chicago_of truncate_diff
  format_range chicago first second = chicago_of first second
  format_range minimal first second = truncate_diff first second 1
  format_range minimal_two first second = truncate_diff first second 2
  format_range expanded first second = second

  -- `truncate_prf`
  unfoldable pub truncate_prf : PageRangeFormat → ℕ → ℕ → Option ℕ
  unfolding expand format_range
  truncate_prf prf first second = elim (expand first second) as (λ _. Option ℕ) [
    | none ↦ none
    | some second ↦ some (format_range prf first second)
  ]
