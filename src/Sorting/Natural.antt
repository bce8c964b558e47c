-- ===== src/Sorting/Natural.antt =====
-- crates/proc/src/sort/natural_sort.rs: texts of macros are compared token by token. The tokenizer,
-- which is made of combinators of the nom crate, is not modelled: a text is the list of its tokens.
use citeproc_rs.Base.{
  ℕ, Option, none, some, List, [], ◌∷◌, Ordering, compare, then_with, is_equal, if◌then◌else◌,
}
use citeproc_rs.Base.Int.{ℤ, compare_ℤ}
use citeproc_rs.Base.Texts.{Text}

-- a date with the text of its month and day
pub record CmpDate : Type 0 where
  pub year : Option ℤ
  pub rest : Text

-- `cmp` of an Option
unfoldable pub cmp_year : Option ℤ → Option ℤ → Ordering
cmp_year none none = Ordering.eq
cmp_year none (some _) = Ordering.lt
cmp_year (some _) none = Ordering.gt
cmp_year (some a) (some b) = compare_ℤ a b

-- `cmp` of strings
unfoldable pub cmp_text : Text → Text → Ordering
cmp_text [] [] = Ordering.eq
cmp_text [] (_ ∷ _) = Ordering.lt
cmp_text (_ ∷ _) [] = Ordering.gt
cmp_text (x ∷ xs) (y ∷ ys) = let rest = cmp_text xs ys in then_with (compare x y) rest

unfoldable pub cmp_date : CmpDate → CmpDate → Ordering
unfolding cmp_year cmp_text
cmp_date a b = then_with (cmp_year a.year b.year) (cmp_text a.rest b.rest)

pub data CmpRange : Type 0 where
  single : CmpDate → CmpRange
  range : CmpDate → CmpDate → CmpRange

unfoldable pub cmp_range : CmpRange → CmpRange → Ordering
unfolding cmp_date
cmp_range (single a) (single b) = cmp_date a b
cmp_range (single a) (range b _) = cmp_date a b
cmp_range (range a _) (single c) = cmp_date a c
cmp_range (range a b) (range c d) = then_with (cmp_date a c) (cmp_date b d)

pub data Token : Type 0 where
  str : Text → Token
  num : ℕ → Token
  citation_number : ℕ → Token
  date : CmpRange → Token

-- `partial_cmp` of tokens, by that of natural texts
unfoldable pub cmp_token : (Text → Text → Option Ordering) → Token → Token → Option Ordering
unfolding cmp_range
cmp_token natural (str a) (str b) = natural a b
cmp_token natural (date a) (date b) = some (cmp_range a b)
cmp_token natural (num a) (num b) = some (compare a b)
cmp_token natural _ _ = none

unfoldable pub step_order : Ordering → Option Ordering → Ordering
step_order o none = o
step_order o (some c) = c

-- `natural_cmp`, from the order found so far
unfoldable pub natural_cmp_from :
    (Text → Text → Option Ordering) → Ordering → List Token → List Token → Ordering
unfolding cmp_token step_order
natural_cmp_from natural o (a ∷ xs) (b ∷ ys) =
    let rest = natural_cmp_from natural (step_order o (cmp_token natural a b)) xs ys in
    if is_equal o then rest else o
natural_cmp_from natural o _ _ = o

unfoldable pub natural_cmp : (Text → Text → Option Ordering) → List Token → List Token → Ordering
unfolding natural_cmp_from
natural_cmp natural xs ys = natural_cmp_from natural Ordering.eq xs ys

unfoldable pub extract_citation_number : List Token → Option ℕ
extract_citation_number (citation_number n ∷ _) = some n
extract_citation_number _ = none
