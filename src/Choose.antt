-- ===== src/Choose.antt =====
-- crates/proc/src/choose.rs: the conditions of `<choose>`, and the branch that is taken. The
-- variants of `AnyVariable`, `NameVariable`, `DateVariable` and `CslType` are told apart by numbers.
mod Tests
pub mod Matching
pub mod DateParts
pub mod Branches
use Prim.Native.String.{String}
use citeproc_rs.Base.{
  ℕ, ◌+◌, ◌%◌, ◌^◌, Bool, true, false, not, ◌&&◌, ◌||◌, List, [], ◌∷◌, Option, none, some, ◌==◌,
  map, any, all, if◌then◌else◌,
}
use citeproc_rs.Position.{Position, matches}
use citeproc_rs.Cites.{LocatorType, discriminant, book}
use citeproc_rs.Dates.{Date, DateOrRange, single, range, literal, is_uncertain_date}

-- crates/csl/src/style/mod.rs
pub data Match : Type 0 where
  match_any match_all match_none match_nand : Match

pub data Cond : Type 0 where
  is_numeric variable : ℕ → Cond
  position : Position → Cond
  locator : LocatorType → Cond
  disambiguate : Bool → Cond
  csl_type : ℕ → Cond
  is_uncertain has_year_only has_month_or_season has_day : ℕ → Cond
  context is_plural : ℕ → Cond
  jurisdiction : String → Cond
  sub_jurisdiction : ℕ → Cond

pub record CondSet : Type 0 where
  pub match_type : Match
  pub conds : List Cond

pub record Conditions : Type 0 where
  pub match_type : Match
  pub sets : List CondSet

pub record CondChecker : Type 0 where
  pub has_variable : ℕ → Bool
  pub numeric : ℕ → Bool
  pub is_disambiguate : ℕ → Bool
  pub type_of : ℕ
  pub locator_type : Option LocatorType
  pub get_date : ℕ → Option DateOrRange
  pub position_of : Option Position
  pub condition_date_parts : Bool

unfoldable pub run_matcher : List Bool → Match → Bool
run_matcher bools match_any = any (λ b. b) bools
run_matcher bools match_nand = any not bools
run_matcher bools match_all = all (λ b. b) bools
run_matcher bools match_none = all not bools

unfoldable pub year_only : Option DateOrRange → Bool
year_only none = false
year_only (some (single d)) = (d.month == 0) && (d.day == 0)
year_only (some (range d1 d2)) =
    (d1.month == 0) && ((d1.day == 0) && ((d2.month == 0) && (d2.day == 0)))
year_only (some (literal _ _)) = false

unfoldable pub month_or_season : Option DateOrRange → Bool
month_or_season none = false
month_or_season (some (single d)) = not (d.month == 0)
month_or_season (some (range d1 d2)) = not (d1.month == 0) || not (d2.month == 0)
month_or_season (some (literal _ _)) = false

unfoldable pub any_day : Option DateOrRange → Bool
any_day none = false
any_day (some (single d)) = not (d.day == 0)
any_day (some (range d1 d2)) = not (d1.day == 0) || not (d2.day == 0)
any_day (some (literal _ _)) = false

unfoldable pub uncertain : Option DateOrRange → Bool
unfolding is_uncertain_date
uncertain none = false
uncertain (some d) = is_uncertain_date d

unfoldable pub position_matches : Option Position → Position → Bool
position_matches none in_cond = false
position_matches (some p) in_cond = matches p in_cond

unfoldable pub same_locator_type : Option LocatorType → LocatorType → Bool
same_locator_type none t = false
same_locator_type (some s) t = discriminant s == discriminant t

abbrev pub when : Bool → Bool → Option Bool
when true b = some b
when false b = none

abbrev pub same_bool : Bool → Bool → Bool
same_bool true b = b
same_bool false b = not b

-- the closure that `filter_map` is given: `none` for a condition that is passed over
unfoldable pub test_cond : CondChecker → ℕ → Cond → Option Bool
unfolding year_only month_or_season any_day uncertain position_matches same_locator_type
test_cond ck count (variable v) = some (ck.has_variable v)
test_cond ck count (is_numeric v) = some (ck.numeric v)
test_cond ck count (disambiguate d) = some (same_bool d (ck.is_disambiguate count))
test_cond ck count (csl_type t) = some (ck.type_of == t)
test_cond ck count (position p) = some (position_matches ck.position_of p)
test_cond ck count (locator t) = some (same_locator_type ck.locator_type t)
test_cond ck count (is_uncertain v) = some (uncertain (ck.get_date v))
test_cond ck count (has_year_only v) = when ck.condition_date_parts (year_only (ck.get_date v))
test_cond ck count (has_month_or_season v) =
    when ck.condition_date_parts (month_or_season (ck.get_date v))
test_cond ck count (has_day v) = when ck.condition_date_parts (any_day (ck.get_date v))
test_cond ck count (context _) = none
test_cond ck count (is_plural _) = none
test_cond ck count (jurisdiction _) = none
test_cond ck count (sub_jurisdiction _) = none

-- the Boolean answers of the conditions that are not passed over
unfoldable pub answers : CondChecker → ℕ → List Cond → List Bool
unfolding test_cond
answers ck count [] = []
answers ck count (c ∷ cs) =
    let rest = answers ck count cs in
    elim (test_cond ck count c) [ none ↦ rest | some b ↦ b ∷ rest ]

unfoldable pub eval_condset : CondChecker → ℕ → CondSet → Bool
unfolding run_matcher answers
eval_condset ck count set = run_matcher (answers ck count set.conds) set.match_type

unfoldable pub is_disambiguate_cond : Cond → Bool
is_disambiguate_cond (disambiguate _) = true
is_disambiguate_cond _ = false

unfoldable pub names_disambiguate : CondSet → Bool
unfolding is_disambiguate_cond
names_disambiguate set = any is_disambiguate_cond set.conds

-- whether the conditions match, and whether they name `disambiguate`
unfoldable pub eval_conditions : CondChecker → ℕ → Conditions → Bool × Bool
unfolding run_matcher eval_condset names_disambiguate
eval_conditions ck count cs = (
  run_matcher (map (eval_condset ck count) cs.sets) cs.match_type,
  any names_disambiguate cs.sets,
)

-- A branch has its conditions and its elements.
module _ {ℓ} {E : Type ℓ} where
  -- the content of a branch that matched, and the count afterwards
  unfoldable pub eval_ifthen_ref : CondChecker → Conditions × E → ℕ → Option E × ℕ
  unfolding eval_conditions
  eval_ifthen_ref ck branch count =
      let r = eval_conditions ck count branch.0 in
      ((if r.0 then some branch.1 else none), (if r.1 then (count + 1) % 2 ^ 32 else count))

  -- `ref_ir`: the content that is chosen, and the count afterwards
  unfoldable pub choose_ref : CondChecker → List (Conditions × E) → E → ℕ → E × ℕ
  unfolding eval_ifthen_ref
  choose_ref ck [] last count = (last, count)
  choose_ref ck (b ∷ bs) last count =
      let r = eval_ifthen_ref ck b count in
      let rest = choose_ref ck bs last r.1 in elim r.0 [ some els ↦ (els, r.1) | none ↦ rest ]

  -- `intermediate`: the content that is chosen, and whether it is left unresolved
  unfoldable pub choose_cite : CondChecker → List (Conditions × E) → E → Bool → E × Bool
  unfolding eval_conditions
  choose_cite ck [] last disamb = (last, disamb)
  choose_cite ck (b ∷ bs) last disamb =
      let r = eval_conditions ck 0 b.0 in
      let rest = choose_cite ck bs last (disamb || r.1) in
      if r.0 then (b.1, disamb || r.1) else rest

-- `CslType::Book`, by its number
abbrev pub book_type : ℕ
book_type = 5

unfoldable pub useless_cond_checker : CondChecker
useless_cond_checker = record {
  has_variable = λ _. false;
  numeric = λ _. false;
  is_disambiguate = λ _. false;
  type_of = book_type;
  locator_type = none;
  get_date = λ _. none;
  position_of = none;
  condition_date_parts = false;
}
