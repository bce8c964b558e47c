-- ===== src/Sorting/Refs.antt =====
-- `sorted_refs` of crates/proc/src/sort.rs: the order of the bibliography, and its numbers. The sort is
-- that of the standard library, a parameter: it may not answer where a comparison panics.
use citeproc_rs.Base.{
  ℕ, Bool, false, ◌&&◌, Option, none, some, List, [], ◌∷◌, ◌++◌, ◌+◌, ◌-◌, ◌%◌, ◌^◌, Ordering,
  length, any, ltb, is_some, if◌then◌else◌,
}
use citeproc_rs.Base.Map.{Map, empty, insert}
use citeproc_rs.Base.Sets.{contains}
use citeproc_rs.Base.Texts.{Text}
use citeproc_rs.YearSuffixes.{BibNumber, cited, uncited}
use citeproc_rs.Sorting.{Comparison, Demoting, cmp_keys}
use citeproc_rs.Sorting.Keys.{bibliography, Context, SortKey, ctx_sort_items}

-- `slice.sort_by`
abbrev pub Sorter : Type 0
Sorter = (ℕ → ℕ → Option Ordering) → List ℕ → Option (List ℕ)

pub record Database (V : Type 0) (N : Type 0) : Type 0 where
  -- the sort keys of the bibliography
  pub bib_sort : Option (List SortKey)
  pub bibliography_no_sort : Bool
  pub cited_keys : List ℕ
  pub disamb_participants : List ℕ
  -- `with_bib_context`: none for a key without a reference
  pub bib_context : ℕ → Option (Context V N)
  pub comparison : Comparison Text V N
  pub sort_by : Sorter

-- the local variables while the references are put in order; `i` grows from 1
pub record Preorder : Type 0 where
  pub preordered : List ℕ
  pub citation_numbers : Map BibNumber
  pub i : ℕ

unfoldable pub add_ref : (ℕ → BibNumber) → ℕ → Preorder → Preorder
add_ref kind id p = if is_some (p.citation_numbers id) then p else record {
  preordered = p.preordered ++ id ∷ [];
  citation_numbers = insert id (kind (p.i % 2 ^ 32)) p.citation_numbers;
  i = p.i + 1;
}

unfoldable pub add_refs : (ℕ → BibNumber) → List ℕ → Preorder → Preorder
unfolding add_ref
add_refs kind [] p = p
add_refs kind (id ∷ ids) p = add_refs kind ids (add_ref kind id p)

-- `difference`
unfoldable pub difference : List ℕ → List ℕ → List ℕ
difference [] other = []
difference (x ∷ xs) other =
    let rest = difference xs other in if contains x other then rest else x ∷ rest

unfoldable pub preorder : List ℕ → List ℕ → Preorder
unfolding add_refs difference
preorder cited_keys participants =
    add_refs uncited (difference participants cited_keys)
      (add_refs cited cited_keys (record { preordered = []; citation_numbers = empty; i = 1 }))

-- `*x = i`
unfoldable pub set_number : ℕ → BibNumber → BibNumber
set_number i (cited _) = cited i
set_number i (uncited _) = uncited i

-- the number at an index: the last is 1 where the order is reversed
unfoldable pub number_at : Bool → ℕ → ℕ → ℕ
number_at reverse max_cnum ix =
    let i = (ix % 2 ^ 32 + 1) % 2 ^ 32 in
    if reverse then ((max_cnum + 1) % 2 ^ 32 + 2 ^ 32 - i) % 2 ^ 32 else i

-- the new number, where `get_mut` finds an entry
unfoldable pub renumber_entry : ℕ → ℕ → Map BibNumber → Option BibNumber → Map BibNumber
unfolding set_number
renumber_entry i ref_id numbers none = numbers
renumber_entry i ref_id numbers (some bn) = insert ref_id (set_number i bn) numbers

unfoldable pub renumber_ref : ℕ → ℕ → Map BibNumber → Map BibNumber
unfolding renumber_entry
renumber_ref i ref_id numbers = renumber_entry i ref_id numbers (numbers ref_id)

unfoldable pub renumber : Bool → ℕ → ℕ → List ℕ → Map BibNumber → Map BibNumber
unfolding number_at renumber_ref
renumber reverse max_cnum ix [] numbers = numbers
renumber reverse max_cnum ix (ref_id ∷ refs) numbers =
    renumber reverse max_cnum (ix + 1) refs
      (renumber_ref (number_at reverse max_cnum ix) ref_id numbers)

unfoldable pub finish_refs : Preorder → Option (List ℕ × Bool) → Option (List ℕ × Map BibNumber)
unfolding renumber
finish_refs p none = none
finish_refs p (some (now_sorted, reverse)) =
    some
      (now_sorted, renumber reverse (length p.preordered % 2 ^ 32) 0 now_sorted p.citation_numbers)

unfoldable pub with_reverse : Bool → Option (List ℕ) → Option (List ℕ × Bool)
with_reverse reverse none = none
with_reverse reverse (some now_sorted) = some (now_sorted, reverse)

module _ {V N : Type 0} where
  -- the cached key of a reference of a number; each in the preorder has one
  unfoldable pub bib_key_for :
      Database V N → List SortKey → ℕ → ℕ → Option BibNumber → Option (Demoting Text V N)
  unfolding ctx_sort_items
  bib_key_for db keys max_cnum id none = none
  bib_key_for db keys max_cnum id (some a_cnum) =
      elim (db.bib_context id) as (λ _. Option (Demoting Text V N)) [
        | none ↦ none
        | some ctx ↦ some (ctx_sort_items ctx bibliography a_cnum keys max_cnum)
      ]

  unfoldable pub bib_key :
      Database V N → List SortKey → ℕ → Map BibNumber → ℕ → Option (Demoting Text V N)
  unfolding bib_key_for
  bib_key db keys max_cnum numbers id = bib_key_for db keys max_cnum id (numbers id)

  unfoldable pub has_fake : Option (Demoting Text V N) → Bool
  has_fake none = false
  has_fake (some d) = is_some d.fake_cnum

  -- `now_sorted`, and `reverse`; the keys of fewer than two references are not asked for
  unfoldable pub sort_with :
      Database V N → List ℕ → Map BibNumber → Option (List SortKey) → Option (List ℕ × Bool)
  unfolding bib_key has_fake cmp_keys with_reverse
  sort_with db preordered numbers none = some (preordered, false)
  sort_with db preordered numbers (some keys) =
      let key = bib_key db keys (length preordered % 2 ^ 32) numbers in
      let reverse = ltb 1 (length preordered) && any (λ id. has_fake (key id)) preordered in
      with_reverse reverse (db.sort_by (λ a b. cmp_keys db.comparison (key a) (key b)) preordered)

  unfoldable pub sort_refs : Database V N → List ℕ → Map BibNumber → Option (List ℕ × Bool)
  unfolding sort_with
  sort_refs db preordered numbers =
      if db.bibliography_no_sort
      then some (preordered, false)
      else sort_with db preordered numbers db.bib_sort

  unfoldable pub sorted_refs : Database V N → Option (List ℕ × Map BibNumber)
  unfolding preorder sort_refs finish_refs
  sorted_refs db =
      let p = preorder db.cited_keys db.disamb_participants in
      finish_refs p (sort_refs db p.preordered p.citation_numbers)
