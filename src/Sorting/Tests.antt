-- ===== src/Sorting/Tests.antt =====
-- A small bibliography of three references, and its order and numbers.
use citeproc_rs.Base.{
  ℕ, Bool, true, false, Option, none, some, List, [], ◌∷◌, ◌≡◌, refl, map, Ordering, compare,
  is_some, if◌then◌else◌, ◌==◌,
}
use citeproc_rs.Base.Int.{pos}
use citeproc_rs.Base.Map.{Map}
use citeproc_rs.Base.Texts.{Text}
use citeproc_rs.ClusterNumber.{in_text}
use citeproc_rs.YearSuffixes.{BibNumber, cited, uncited}
use citeproc_rs.Sorting.{
  SortDirection, ascending, descending, ordinary_value, Comparison, Demoting, cmp_item,
  cmp_demoting,
}
use citeproc_rs.Sorting.Demotion.{cmp_item-missing}
use citeproc_rs.Sorting.Document.{Document, enumerated, cited_keys, disamb_participants}
use citeproc_rs.Sorting.Keys.{
  bibliography, SortKey, SortSource, number_variable, name_variable, date_variable,
  citation_number_variable, ordinary_variable, macro_source, Context, ctx_sort_items, cnum_of,
}
use citeproc_rs.Sorting.Matching.{ctx_sort_items-is_some}
use citeproc_rs.Sorting.Natural.{citation_number, CmpDate}
use citeproc_rs.Sorting.Refs.{Database, Sorter}

-- texts of variables are numbers here
abbrev by_number : Comparison Text ℕ ℕ
by_number = record {
  cmp_macro = λ a b. some Ordering.eq;
  cmp_text = λ a b. some (compare a b);
  cmp_number = λ a b. some (compare a b);
}

cmp_item-missing_example :
    (cmp_item by_number
        (record { direction = some descending; value = ordinary_value none })
        (record { direction = some descending; value = ordinary_value (some 3) })
      ≡ some Ordering.gt)
    × (cmp_item by_number
          (record { direction = some descending; value = ordinary_value (some 3) })
          (record { direction = some descending; value = ordinary_value none })
        ≡ some Ordering.lt)
cmp_item-missing_example =
    cmp_item-missing by_number (some descending) (ordinary_value none) (ordinary_value (some 3))
      refl refl refl

-- a reference whose title is a number and which no macro describes
abbrev titled : ℕ → Context ℕ ℕ
titled t = record {
  macro_string = λ name key cnum. [];
  tokens = λ text. [];
  get_ordinary = λ v. some t;
  get_number = λ v. none;
  name_strings = λ v key place. none;
  get_date = λ v. none;
}

abbrev key_on : (d : Option SortDirection) → SortKey
key_on d = record {
  sort_source = ordinary_variable 1;
  names_min = none;
  names_use_first = none;
  names_use_last = none;
  direction = d;
}

abbrev first_items : Demoting Text ℕ ℕ
unfolding ctx_sort_items
first_items = ctx_sort_items (titled 5) bibliography (cited 1) (key_on (some ascending) ∷ []) 2

abbrev second_items : Demoting Text ℕ ℕ
unfolding ctx_sort_items
second_items = ctx_sort_items (titled 7) bibliography (uncited 2) (key_on (some ascending) ∷ []) 2

no_cnum :
    (t : ℕ) (m : BibNumber) (s : SortSource) (key : SortKey)
    → key.sort_source ≡ s
    → cnum_of (titled t) m key ≡ none
unfolding cnum_of
no_cnum t m (macro_source _) key e = rw e refl
no_cnum t m (ordinary_variable _) key e = rw e refl
no_cnum t m citation_number_variable key e = rw e refl
no_cnum t m (number_variable _) key e = rw e refl
no_cnum t m (name_variable _) key e = rw e refl
no_cnum t m (date_variable _) key e = rw e refl

ctx_sort_items-is_some_example :
    is_some (
      cmp_demoting by_number
        (ctx_sort_items (titled 5) bibliography (cited 1) (key_on none ∷ key_on none ∷ []) 2)
        (ctx_sort_items (titled 7) bibliography (uncited 2) (key_on none ∷ key_on none ∷ []) 2))
    ≡ true
ctx_sort_items-is_some_example =
    ctx_sort_items-is_some (titled 5) (titled 7) (cited 1) (uncited 2) bibliography 2 by_number
      (key_on none ∷ key_on none ∷ []) (λ key. no_cnum 5 (cited 1) key.sort_source key refl)
      (λ key. no_cnum 7 (uncited 2) key.sort_source key refl)

-- a sort by insertion
abbrev not_greater : Option Ordering → Bool
not_greater none = false
not_greater (some Ordering.gt) = false
not_greater (some _) = true

abbrev put : (ℕ → ℕ → Option Ordering) → ℕ → List ℕ → List ℕ
put cmp x [] = x ∷ []
put cmp x (y ∷ ys) =
    let rest = put cmp x ys in if not_greater (cmp x y) then x ∷ y ∷ ys else y ∷ rest

abbrev put_all : (ℕ → ℕ → Option Ordering) → List ℕ → List ℕ
put_all cmp [] = []
put_all cmp (x ∷ xs) = put cmp x (put_all cmp xs)

abbrev insertion : Sorter
insertion cmp xs = some (put_all cmp xs)

-- two references that are cited and one that is not, whose titles are their own numbers
abbrev three_refs : Database ℕ ℕ
three_refs = record {
  bib_sort = some (key_on (some descending) ∷ []);
  bibliography_no_sort = false;
  cited_keys = 20 ∷ 10 ∷ [];
  disamb_participants = 20 ∷ 10 ∷ 30 ∷ [];
  bib_context = λ id. some (titled id);
  comparison = by_number;
  sort_by = insertion;
}

abbrev may : CmpDate
may = record { year = some (pos 2000); rest = 48 ∷ 53 ∷ [] }

abbrev june : CmpDate
june = record { year = some (pos 2000); rest = 48 ∷ 54 ∷ [] }

abbrev small_document : Document
small_document = record {
  all_keys = 10 ∷ 20 ∷ 30 ∷ [];
  uncited_keys = enumerated (30 ∷ 40 ∷ []);
  cluster_ids = 1 ∷ 2 ∷ [];
  cluster_note_number = λ id. if id == 1 then some (in_text 2) else some (in_text 1);
  cluster_mode = λ id. none;
  cluster_cites = λ id. if id == 1 then 5 ∷ [] else 6 ∷ 7 ∷ [];
  ref_id = λ id. if id == 5 then 10 else if id == 6 then 20 else 50;
}

-- the second cluster comes first, and the unknown reference is left out
cited_first : cited_keys small_document ≡ 20 ∷ 10 ∷ []
unfolding cited_keys
cited_first = refl

asked_last : disamb_participants small_document ≡ 20 ∷ 10 ∷ 30 ∷ []
unfolding disamb_participants
asked_last = refl

-- a macro renders the citation number of a cited reference and nothing for the others
abbrev by_macro : Context ℕ ℕ
by_macro = record {
  macro_string = λ name key cnum. elim cnum as (λ _. Text) [ none ↦ [] | some n ↦ n ∷ [] ];
  tokens = λ text. map citation_number text;
  get_ordinary = λ v. none;
  get_number = λ v. none;
  name_strings = λ v key place. none;
  get_date = λ v. none;
}

abbrev macro_key : SortKey
macro_key = record {
  sort_source = macro_source 1;
  names_min = none;
  names_use_first = none;
  names_use_last = none;
  direction = none;
}

-- the items of a cited and of an uncited reference are then not of one length, which `assert_eq!`
-- does not allow
macro_panics :
    cmp_demoting by_number
      (ctx_sort_items by_macro bibliography (cited 1) (macro_key ∷ []) 2)
      (ctx_sort_items by_macro bibliography (uncited 2) (macro_key ∷ []) 2)
    ≡ none
unfolding cmp_demoting ctx_sort_items
macro_panics = refl
