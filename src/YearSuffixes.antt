-- ===== src/YearSuffixes.antt =====
-- `year_suffixes` of crates/proc/src/db.rs: the references whose cites stay ambiguous are put in
-- groups, and each group is given suffixes in the order of the bibliography.
mod Tests
pub mod Rounds
pub mod Together
pub mod Assignment
pub mod Distinctness
pub mod Whole
use mathlib.Core.List.{foldl}
use citeproc_rs.Base.{
  ℕ, zero, suc, ◌+◌, ◌%◌, ◌^◌, Bool, true, false, ◌||◌, List, [], ◌∷◌, Option, none, some, map, leb,
  ltb, length, any, is_empty, is_some, if◌then◌else◌, not, ◌-◌,
}
use citeproc_rs.Base.Map.{Map, empty, insert}
use citeproc_rs.Base.Sets.{contains, insert_in, insert_all, intersection, sort_by_key}

-- crates/proc/src/sort.rs
pub data BibNumber : Type 0 where
  cited uncited : ℕ → BibNumber

-- `BibNumber::get`
unfoldable pub get : BibNumber → ℕ
get (cited b) = b
get (uncited b) = b

-- the queries of the database that the function reads
pub record IrDatabase : Type 0 where
  pub disambiguate_add_year_suffix : Bool
  pub all_keys : List ℕ
  pub sorted_refs : List ℕ
  pub bib_numbers : Map BibNumber
  -- `ir_gen2_matching_refs` of the reference's ghost cite
  pub matching_refs : ℕ → List ℕ

-- `set.len() <= list.len()` chooses the side that is walked through
unfoldable pub intersects : List ℕ → List ℕ → Bool
intersects set list =
    if leb (length set) (length list)
    then any (λ v. contains v list) set
    else any (λ v. contains v set) list

-- the group that is being put together, with its place
abbrev pub Coalesce : Type 0
Coalesce = Option (ℕ × List ℕ)

unfoldable pub absorb : ℕ → List ℕ → Coalesce → ℕ × List ℕ
absorb n g none = (n, g)
absorb n g (some (first, already)) = (first, intersection already g)

unfoldable pub extend : ℕ → List ℕ → List ℕ → List ℕ
extend ref_id matching group = insert_all matching (insert_in ref_id group)

unfoldable pub touches : ℕ → List ℕ → List ℕ → Bool
unfolding intersects
touches ref_id matching group = contains ref_id group || intersects group matching

-- `for (n, group) in groups.iter_mut().enumerate()`
unfoldable pub coalesce_groups :
    ℕ → List ℕ → ℕ → List (List ℕ) → Coalesce → List (List ℕ) × Coalesce
unfolding touches absorb extend
coalesce_groups ref_id matching n [] c = ([], c)
coalesce_groups ref_id matching n (g ∷ gs) c =
    let hit = touches ref_id matching g in
    let c' = if hit then some (absorb n (extend ref_id matching g) c) else c in
    let rest = coalesce_groups ref_id matching (n + 1) gs c' in
    ((if hit then [] else g) ∷ rest.0, rest.1)

-- `groups[n] = group`
abbrev pub set_at : List (List ℕ) → ℕ → List ℕ → List (List ℕ)
set_at [] n g = []
set_at (h ∷ hs) zero g = g ∷ hs
set_at (h ∷ hs) (suc n) g = h ∷ set_at hs n g

-- `groups.retain(|x| !x.is_empty())`
abbrev pub retain : List (List ℕ) → List (List ℕ)
retain [] = []
retain (g ∷ gs) = let rest = retain gs in if is_empty g then rest else g ∷ rest

unfoldable pub put_back : List (List ℕ) × Coalesce → List (List ℕ)
put_back (gs, none) = retain gs
put_back (gs, some (n, group)) = retain (set_at gs n group)

-- one round of `for_each`
unfoldable pub round : List ℕ → List (List ℕ) → ℕ → List (List ℕ)
unfolding coalesce_groups put_back
round matching groups ref_id =
    if leb (length matching) 1
    then groups
    else put_back (coalesce_groups ref_id matching 0 groups none)

unfoldable pub ref_bib_number : Map BibNumber → ℕ → ℕ
unfolding get
ref_bib_number bib_numbers ref_id = elim (bib_numbers ref_id) [ some b ↦ get b | none ↦ 2 ^ 32 - 1 ]

-- `for ref_id in &vec`, with the counter `i`
unfoldable pub assign_all : List ℕ → ℕ → Map ℕ → Map ℕ
assign_all [] i suffixes = suffixes
assign_all (ref_id ∷ refs) i suffixes =
    let old = is_some (suffixes ref_id) in
    assign_all refs (if old then i else (i + 1) % 2 ^ 32)
      (if old then suffixes else insert ref_id i suffixes)

-- `for group in groups`
unfoldable pub assign_group : Map BibNumber → Map ℕ → List ℕ → Map ℕ
unfolding assign_all ref_bib_number
assign_group bib_numbers suffixes group =
    if leb (length group) 1
    then suffixes
    else assign_all (sort_by_key (ref_bib_number bib_numbers) group) 1 suffixes

unfoldable pub final_groups : IrDatabase → List (List ℕ)
unfolding round
final_groups db =
    foldl (λ groups ref_id. round (db.matching_refs ref_id) groups ref_id)
      (map (λ id. id ∷ []) db.all_keys) db.sorted_refs

unfoldable pub year_suffixes : IrDatabase → Map ℕ
unfolding final_groups assign_group
year_suffixes db =
    if not db.disambiguate_add_year_suffix
    then empty
    else foldl (assign_group db.bib_numbers) empty (final_groups db)
