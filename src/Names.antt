-- ===== src/Names.antt =====
-- `name_tokens` of crates/proc/src/names.rs: which names of a variable are shown, and the delimiters,
-- the "and" and the "et al" between and after them. The text of "et al" with its formatting is a
-- parameter.
mod Tests
pub mod Parts
pub mod Shown
pub mod Marked
pub mod Trimmed
use citeproc_rs.Base.{
  zero, suc, ◌&&◌, ◌||◌, ◌==◌, if◌then◌else◌, ◌+◌, true, false, none, some, [], ◌∷◌, ◌++◌, ℕ, leb,
  List, Option, Bool, is_some, not, ◌-◌, ltb, suc, any,
}
use citeproc_rs.Base.Texts.{unwrap_or}
use citeproc_rs.Position.{Position, first}
use citeproc_rs.Position
use citeproc_rs.Layout.{NameAnd}

pub data NameAsSortOrder : Type 0 where
  first_name all_names : NameAsSortOrder

pub data DelimiterPrecedes : Type 0 where
  contextual after_inverted_name always never : DelimiterPrecedes

-- the attributes of a `cs:name` element that are read here
pub record NameEl : Type 0 where
  pub and_of : Option NameAnd
  pub delimiter_precedes_et_al : Option DelimiterPrecedes
  pub delimiter_precedes_last : Option DelimiterPrecedes
  pub et_al_min : Option ℕ
  pub et_al_use_first : Option ℕ
  pub et_al_use_last : Option Bool
  pub et_al_subsequent_min : Option ℕ
  pub et_al_subsequent_use_first : Option ℕ
  pub name_as_sort_order : Option NameAsSortOrder

pub record OneNameVar : Type 0 where
  pub name_el : NameEl
  pub bump_name_count : ℕ

pub data NameToken (T : Type 0) : Type 0 where
  name : ℕ → NameToken T
  et_al : T → NameToken T
  ellipsis delimiter and_token space : NameToken T

unfoldable pub enable_et_al : NameEl → Bool
enable_et_al el = is_some el.et_al_min && is_some el.et_al_use_first

unfoldable pub naso : OneNameVar → Bool → Bool
naso var seen_one = elim var.name_el.name_as_sort_order [
  | none ↦ false
  | some order ↦ elim order [ first_name ↦ not seen_one | all_names ↦ true ]
]

-- the first value, or that for later cites
unfoldable pub by_position : Position → ℕ → Option ℕ → ℕ
unfolding Position.same
by_position pos a later = if Position.same pos first then a else unwrap_or a later

unfoldable pub ea_use_first : OneNameVar → Position → ℕ
unfolding by_position
ea_use_first var pos =
    by_position pos (unwrap_or 1 var.name_el.et_al_use_first) var.name_el.et_al_subsequent_use_first
    + var.bump_name_count

-- `std::cmp::max`
abbrev pub max_of : ℕ → ℕ → ℕ
max_of a b = if leb a b then b else a

unfoldable pub ea_min : OneNameVar → Position → ℕ
unfolding by_position ea_use_first
ea_min var pos =
    max_of (by_position pos (unwrap_or 0 var.name_el.et_al_min) var.name_el.et_al_subsequent_min)
      (ea_use_first var pos + 1)

unfoldable pub should_delimit_after : DelimiterPrecedes → OneNameVar → ℕ → Bool
unfolding naso
should_delimit_after contextual var count = leb 2 count
should_delimit_after after_inverted_name var count = naso var (ltb 1 count)
should_delimit_after always var count = true
should_delimit_after never var count = false

-- the numbers from the first on, as many as the second says
abbrev pub count_from : ℕ → ℕ → List ℕ
count_from i zero = []
count_from i (suc n) = i ∷ count_from (suc i) n

-- `iter.take(k)`
abbrev pub take : ℕ → List ℕ → List ℕ
take zero xs = []
take (suc k) [] = []
take (suc k) (x ∷ xs) = x ∷ take k xs

module _ {T : Type 0} where
  -- `intercalate`, of names and delimiters, after the first name
  unfoldable pub with_delimiters : List ℕ → List (NameToken T)
  with_delimiters [] = []
  with_delimiters (i ∷ is) = delimiter ∷ name i ∷ with_delimiters is

  unfoldable pub intercalate : List ℕ → List (NameToken T)
  unfolding with_delimiters
  intercalate [] = []
  intercalate (i ∷ is) = name i ∷ with_delimiters is

  abbrev pub is_delimiter : NameToken T → Bool
  is_delimiter delimiter = true
  is_delimiter _ = false

  -- the "and" after the last delimiter, which stays or is turned into a space
  unfoldable pub insert_and : Bool → List (NameToken T) → List (NameToken T)
  insert_and keep [] = []
  insert_and keep (t ∷ ts) =
      let rest = insert_and keep ts in
      if not (is_delimiter t) || any is_delimiter ts
      then t ∷ rest
      else (if keep then delimiter else space) ∷ and_token ∷ ts

  -- the end of a list that is cut short
  unfoldable pub et_al_end : OneNameVar → ℕ → Option T → List (NameToken T)
  unfolding should_delimit_after
  et_al_end var use_first none = []
  et_al_end var use_first (some term) =
      (if should_delimit_after (unwrap_or contextual var.name_el.delimiter_precedes_et_al) var
          use_first
        then delimiter
        else space)
      ∷ et_al term
      ∷ []

  -- the names up to `use_first`, and what stands for the others
  unfoldable pub cut_short : OneNameVar → ℕ → ℕ → Bool → Option T → List (NameToken T)
  unfolding intercalate et_al_end
  cut_short var use_first name_count is_sort_key term =
      if use_first == 0
      then []
      else if unwrap_or false var.name_el.et_al_use_last && leb (use_first + 2) name_count
      then intercalate (take use_first (count_from 0 name_count))
        ++ (delimiter ∷ ellipsis ∷ space ∷ name (name_count - 1) ∷ [])
      else intercalate (take use_first (count_from 0 name_count))
        ++ (if is_sort_key then [] else et_al_end var use_first term)

  unfoldable pub all_tokens : OneNameVar → ℕ → Bool → List (NameToken T)
  unfolding intercalate insert_and should_delimit_after
  all_tokens var name_count is_sort_key =
      if is_some var.name_el.and_of && not is_sort_key
      then insert_and
          (should_delimit_after (unwrap_or contextual var.name_el.delimiter_precedes_last) var
            (name_count - 1))
          (intercalate (count_from 0 name_count))
      else intercalate (count_from 0 name_count)

  unfoldable pub name_tokens : OneNameVar → Position → ℕ → Bool → Option T → List (NameToken T)
  unfolding enable_et_al ea_min ea_use_first cut_short all_tokens
  name_tokens var pos name_count is_sort_key term =
      if enable_et_al var.name_el && leb (ea_min var pos) name_count
      then cut_short var (ea_use_first var pos) name_count is_sort_key term
      else all_tokens var name_count is_sort_key
