-- ===== src/Terms.antt =====
-- crates/csl/src/terms.rs: the terms of a locale, and the order in which they stand in for each other.
-- The variants of `MiscTerm`, `Category`, `QuoteTerm` and `RoleTerm` are told apart by numbers.
mod Tests
pub mod Ordinals
pub mod Forms
use Prim.Native.String.{String}
use citeproc_rs.Base.{
  ℕ, suc, zero, ◌-◌, ◌%◌, Bool, true, false, not, ◌&&◌, ◌||◌, List, [], ◌∷◌, ◌++◌, Option, none,
  some, map, ◌==◌, leb, ltb, if◌then◌else◌,
}
use citeproc_rs.Base.Iter.{drain}
use citeproc_rs.Cites.{LocatorType, page, issue, volume}

pub data TermForm : Type 0 where
  long short symbol : TermForm

-- `TermFallbackIter::next`
unfoldable pub next_form : TermForm → Option TermForm
next_form symbol = some short
next_form short = some long
next_form long = none

pub data TermFormExtended : Type 0 where
  long_form short_form symbol_form verb verb_short : TermFormExtended

-- `TermFallbackExtendedIter::next`
unfoldable pub next_extended : TermFormExtended → Option TermFormExtended
next_extended verb_short = some verb
next_extended symbol_form = some short_form
next_extended verb = some long_form
next_extended short_form = some long_form
next_extended long_form = none

pub data SimpleTermSelector : Type 0 where
  misc : ℕ → TermFormExtended → SimpleTermSelector
  category : ℕ → TermForm → SimpleTermSelector
  quote : ℕ → SimpleTermSelector

abbrev pub map_all {ℓ κ} : {A : Type ℓ} {B : Type κ} → (A → B) → Option (List A) → Option (List B)
map_all f none = none
map_all f (some xs) = some (map f xs)

-- `SimpleTermSelector::fallback`, on fuel
unfoldable pub simple_fallback : ℕ → SimpleTermSelector → Option (List SimpleTermSelector)
unfolding next_form next_extended drain
simple_fallback fuel (misc t form) = map_all (misc t) (drain next_extended fuel (some form))
simple_fallback fuel (category t form) = map_all (category t) (drain next_form fuel (some form))
simple_fallback fuel (quote t) = some (quote t ∷ [])

pub data Gender : Type 0 where
  masculine feminine neuter : Gender

pub data OrdinalMatch : Type 0 where
  last_digit last_two_digits whole_number : OrdinalMatch

pub data OrdinalTerm : Type 0 where
  ordinal : OrdinalTerm
  mod100 : ℕ → OrdinalMatch → OrdinalTerm
  long_ordinal_01 long_ordinal_02 long_ordinal_03 long_ordinal_04 long_ordinal_05 : OrdinalTerm
  long_ordinal_06 long_ordinal_07 long_ordinal_08 long_ordinal_09 long_ordinal_10 : OrdinalTerm

-- `OrdinalMatch::default_for` of crates/csl/src/lib.rs
unfoldable pub default_for : ℕ → OrdinalMatch
default_for n = if ltb n 10 then last_digit else last_two_digits

unfoldable pub to_number : OrdinalTerm → ℕ
to_number ordinal = 0
to_number (mod100 n last_digit) = n % 10
to_number (mod100 n last_two_digits) = n % 100
to_number (mod100 n whole_number) = n % 100
to_number long_ordinal_01 = 1
to_number long_ordinal_02 = 2
to_number long_ordinal_03 = 3
to_number long_ordinal_04 = 4
to_number long_ordinal_05 = 5
to_number long_ordinal_06 = 6
to_number long_ordinal_07 = 7
to_number long_ordinal_08 = 8
to_number long_ordinal_09 = 9
to_number long_ordinal_10 = 10

unfoldable pub from_number_long : ℕ → OrdinalTerm
from_number_long n =
    if n == 1
    then long_ordinal_01
    else if n == 2
    then long_ordinal_02
    else if n == 3
    then long_ordinal_03
    else if n == 4
    then long_ordinal_04
    else if n == 5
    then long_ordinal_05
    else if n == 6
    then long_ordinal_06
    else if n == 7
    then long_ordinal_07
    else if n == 8
    then long_ordinal_08
    else if n == 9
    then long_ordinal_09
    else if n == 10
    then long_ordinal_10
    else ordinal

unfoldable pub from_number_for_selector : ℕ → Bool → OrdinalTerm
unfolding from_number_long
from_number_for_selector n is_long =
    if is_long && (ltb 0 n && leb n 10) then from_number_long n else mod100 (n % 100) whole_number

-- `OrdinalTermIter::next`
unfoldable pub next_ordinal : OrdinalTerm → Option OrdinalTerm
unfolding to_number
next_ordinal ordinal = none
next_ordinal (mod100 _ last_digit) = some ordinal
next_ordinal (mod100 n last_two_digits) = some (mod100 (n % 10) last_digit)
next_ordinal (mod100 n whole_number) = some (mod100 n last_two_digits)
next_ordinal t = some (mod100 (to_number t) whole_number)

-- `OrdinalTerm::fallback`, on fuel
unfoldable pub ordinal_fallback : ℕ → OrdinalTerm → Option (List OrdinalTerm)
unfolding drain next_ordinal
ordinal_fallback fuel t = drain next_ordinal fuel (some t)

abbrev pub OrdinalTermSelector : Type 0
OrdinalTermSelector = OrdinalTerm × Gender

-- each term with the gender, then with the neuter
unfoldable pub with_genders : Gender → List OrdinalTerm → List OrdinalTermSelector
with_genders gender [] = []
with_genders gender (t ∷ ts) = (t, gender) ∷ (t, neuter) ∷ with_genders gender ts

unfoldable pub genders_of : Gender → Option (List OrdinalTerm) → Option (List OrdinalTermSelector)
unfolding with_genders
genders_of gender none = none
genders_of gender (some ts) = some (with_genders gender ts)

-- `OrdinalTermSelector::fallback`
unfoldable pub selector_fallback : ℕ → OrdinalTermSelector → Option (List OrdinalTermSelector)
unfolding ordinal_fallback genders_of
selector_fallback fuel (t, gender) = genders_of gender (ordinal_fallback fuel t)

pub data MonthTerm : Type 0 where
  month_01 month_02 month_03 month_04 month_05 month_06 : MonthTerm
  month_07 month_08 month_09 month_10 month_11 month_12 : MonthTerm

-- `MonthTerm::from_u32`
unfoldable pub month_of : ℕ → Option MonthTerm
month_of m =
    if m == 1
    then some month_01
    else if m == 2
    then some month_02
    else if m == 3
    then some month_03
    else if m == 4
    then some month_04
    else if m == 5
    then some month_05
    else if m == 6
    then some month_06
    else if m == 7
    then some month_07
    else if m == 8
    then some month_08
    else if m == 9
    then some month_09
    else if m == 10
    then some month_10
    else if m == 11
    then some month_11
    else if m == 12
    then some month_12
    else none

pub data SeasonTerm : Type 0 where
  season_01 season_02 season_03 season_04 : SeasonTerm

unfoldable pub season_of : ℕ → Option SeasonTerm
season_of s =
    if s == 1
    then some season_01
    else if s == 2
    then some season_02
    else if s == 3
    then some season_03
    else if s == 4
    then some season_04
    else none

-- crates/csl/src/variables.rs
pub data NumberVariable : Type 0 where
  chapter_number collection_number edition issue_number number number_of_pages : NumberVariable
  number_of_volumes volume_number locator pages page_first : NumberVariable
  first_reference_note_number citation_number publication_number : NumberVariable
  supplement_number authority part_number printing : NumberVariable

pub data GenderedTermSelector : Type 0 where
  number_term : NumberVariable → TermForm → GenderedTermSelector
  locator_term : LocatorType → TermForm → GenderedTermSelector
  month_term : MonthTerm → TermForm → GenderedTermSelector
  season_term : SeasonTerm → TermForm → GenderedTermSelector

unfoldable pub from_number_variable :
    Option LocatorType → NumberVariable → TermForm → Option GenderedTermSelector
from_number_variable none locator form = none
from_number_variable (some l) locator form = some (locator_term l form)
from_number_variable _ v form = some (number_term v form)

-- crates/csl/src/style/mod.rs
pub data MonthForm : Type 0 where
  month_long month_short numeric numeric_leading_zeros : MonthForm

unfoldable pub form_of_month : MonthForm → Option TermForm
form_of_month month_long = some long
form_of_month month_short = some short
form_of_month _ = none

abbrev pub month_selector : Option MonthTerm → TermForm → Option GenderedTermSelector
month_selector none form = none
month_selector (some m) form = some (month_term m form)

abbrev pub season_selector : Option SeasonTerm → TermForm → Option GenderedTermSelector
season_selector none form = none
season_selector (some s) form = some (season_term s form)

-- the month or the season of a number, in a form that has terms; where the code expects a month,
-- the number is one
unfoldable pub month_or_season_term : ℕ → TermForm → Option GenderedTermSelector
unfolding month_of season_of
month_or_season_term n form =
    if (n == 0) || ltb 16 n
    then none
    else if ltb 12 n
    then season_selector (season_of (n - 12)) form
    else month_selector (month_of n) form

unfoldable pub from_month_u32 : ℕ → MonthForm → Option GenderedTermSelector
unfolding form_of_month month_or_season_term
from_month_u32 n form = elim (form_of_month form) [
  | none ↦ none
  | some f ↦ month_or_season_term n f
]

unfoldable pub normalise : GenderedTermSelector → GenderedTermSelector
normalise (number_term pages x) = locator_term page x
normalise (number_term issue_number x) = locator_term issue x
normalise (number_term volume_number x) = locator_term volume x
normalise g = g

-- `GenderedTermSelector::fallback`, on fuel
unfoldable pub gendered_fallback : ℕ → GenderedTermSelector → Option (List GenderedTermSelector)
unfolding drain next_form
gendered_fallback fuel (number_term t form) =
    map_all (number_term t) (drain next_form fuel (some form))
gendered_fallback fuel (locator_term t form) =
    map_all (locator_term t) (drain next_form fuel (some form))
gendered_fallback fuel (month_term t form) =
    map_all (month_term t) (drain next_form fuel (some form))
gendered_fallback fuel (season_term t form) =
    map_all (season_term t) (drain next_form fuel (some form))
