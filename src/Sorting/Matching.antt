-- ===== src/Sorting/Matching.antt =====
-- The items of two references by the same keys are of the same kinds.
use citeproc_rs.Base.{
  ℕ, Bool, true, ◌&&◌, Option, none, some, List, [], ◌∷◌, ◌++◌, Ordering, length, is_some,
  if◌then◌else◌, ◌==◌, ◌≡◌, refl, sym, ap, ◌∙◌, arith,
}
use mathlib.Core.Path.{subst}
use citeproc_rs.Base.Texts.{Text}
use citeproc_rs.YearSuffixes.{BibNumber}
use citeproc_rs.Sorting.{
  SortDirection, SortValue, macro_value, cnum_value, ordinary_value, number_value, names_value,
  date_value, SortItem, Demoting, Comparison, same_direction, cmp_values, cmp_item, cmp_items,
  cmp_demoting, answer, unless_equal, Demoted,
}
use citeproc_rs.Sorting.Demotion.{same_kind, same_direction-same}
use citeproc_rs.Sorting.Keys.{
  CiteOrBib, citation, bibliography, SortSource, macro_source, ordinary_variable,
  citation_number_variable, number_variable, name_variable, date_variable, SortKey, Context,
  push_item, push_cnum, cnum_of, value_of, sort_key_step, sort_keys_from, ctx_sort_items,
}

answer-is_some :
    (d : Option SortDirection) (o : Option (Ordering × Option Demoted))
    → is_some o ≡ true
    → is_some (answer true d o) ≡ true
unfolding answer
answer-is_some d none h = cc
answer-is_some d (some o) h = refl

unless_equal-is_some :
    (o rest : Option Ordering)
    → is_some o ≡ true
    → is_some rest ≡ true
    → is_some (unless_equal o rest) ≡ true
unfolding unless_equal
unless_equal-is_some none rest h k = cc
unless_equal-is_some (some Ordering.eq) rest h k = k
unless_equal-is_some (some Ordering.lt) rest h k = refl
unless_equal-is_some (some Ordering.gt) rest h k = refl

module _ {M V N : Type 0} where
  abbrev alike : SortItem M V N → SortItem M V N → Bool
  alike a b = same_direction a.direction b.direction && same_kind a.value b.value

  abbrev Alike : List (SortItem M V N) → List (SortItem M V N) → Type 0
  Alike [] [] = Unit
  Alike [] (_ ∷ _) = ⊥
  Alike (_ ∷ _) [] = ⊥
  Alike (a ∷ xs) (b ∷ ys) = (alike a b ≡ true) × Alike xs ys

  Alike-append :
      (xs ys : List (SortItem M V N)) (a b : SortItem M V N)
      → Alike xs ys
      → alike a b ≡ true
      → Alike (xs ++ a ∷ []) (ys ++ b ∷ [])
  Alike-append [] [] a b h k = (k, tt)
  Alike-append [] (_ ∷ _) a b h k = absurd h
  Alike-append (_ ∷ _) [] a b h k = absurd h
  Alike-append (x ∷ xs) (y ∷ ys) a b (e, h) k = (e, Alike-append xs ys a b h k)

  Alike-length : (xs ys : List (SortItem M V N)) → Alike xs ys → (length xs == length ys) ≡ true
  Alike-length [] [] h = refl
  Alike-length [] (_ ∷ _) h = absurd h
  Alike-length (_ ∷ _) [] h = absurd h
  Alike-length (x ∷ xs) (y ∷ ys) (e, h) = ground (arith, Alike-length xs ys h)

  cmp_values-is_some :
      (c : Comparison M V N) (a b : SortValue M V N)
      → same_kind a b ≡ true
      → is_some (cmp_values c a b) ≡ true
  unfolding cmp_values
  cmp_values-is_some c (cnum_value a) (cnum_value b) h = refl
  cmp_values-is_some c (macro_value a) (macro_value b) h = refl
  cmp_values-is_some c (ordinary_value a) (ordinary_value b) h = refl
  cmp_values-is_some c (number_value a) (number_value b) h = refl
  cmp_values-is_some c (names_value a) (names_value b) h = refl
  cmp_values-is_some c (date_value a) (date_value b) h = refl
  cmp_values-is_some c a b h = cc

  cmp_item-is_some :
      (c : Comparison M V N) (a b : SortItem M V N)
      → alike a b ≡ true
      → is_some (cmp_item c a b) ≡ true
  unfolding cmp_item
  cmp_item-is_some c a b h =
      let k = cmp_values-is_some c a.value b.value (ground (arith, h)) in
      ap (λ t. is_some (answer t a.direction (cmp_values c a.value b.value))) {y = true}
        (ground (arith, h))
      ∙ answer-is_some a.direction (cmp_values c a.value b.value) k

  cmp_items-is_some :
      (c : Comparison M V N) (xs ys : List (SortItem M V N))
      → Alike xs ys
      → is_some (cmp_items c xs ys) ≡ true
  unfolding cmp_items
  cmp_items-is_some c [] [] h = refl
  cmp_items-is_some c [] (_ ∷ _) h = absurd h
  cmp_items-is_some c (_ ∷ _) [] h = absurd h
  cmp_items-is_some c (a ∷ xs) (b ∷ ys) (e, h) =
      unless_equal-is_some (cmp_item c a b) (cmp_items c xs ys) (cmp_item-is_some c a b e)
        (cmp_items-is_some c xs ys h)

  cmp_demoting-is_some :
      (c : Comparison M V N) (a b : Demoting M V N)
      → Alike a.items b.items
      → is_some (cmp_demoting c a b) ≡ true
  unfolding cmp_demoting
  cmp_demoting-is_some c a b h =
      ap (λ t. is_some (if t then cmp_items c a.items b.items else none))
        (Alike-length a.items b.items h)
      ∙ cmp_items-is_some c a.items b.items h

module _ {V N : Type 0} (x y : Context V N) (m n : BibNumber) (place : CiteOrBib)
    (max_cnum : ℕ) where
  value_of-same_kind :
      (s : SortSource) (key : SortKey) (f g : Option ℕ)
      → key.sort_source ≡ s
      → same_kind (value_of x place m f key) (value_of y place n g key) ≡ true
  unfolding value_of
  value_of-same_kind (macro_source _) key f g e = rw e refl
  value_of-same_kind (ordinary_variable _) key f g e = rw e refl
  value_of-same_kind citation_number_variable key f g e = rw e refl
  value_of-same_kind (number_variable _) key f g e = rw e refl
  value_of-same_kind (name_variable _) key f g e = rw e refl
  value_of-same_kind (date_variable _) key f g e = rw e refl

  push_item-items :
      (a_cnum : BibNumber) (item : SortItem Text V N) (d : Demoting Text V N)
      → (push_item place max_cnum a_cnum item d).items ≡ d.items ++ item ∷ []
  unfolding push_item
  push_item-items a_cnum item d =
      elim place as (λ p. (push_item p max_cnum a_cnum item d).items ≡ d.items ++ item ∷ []) [
        | citation ↦ refl
        | bibliography ↦ refl
      ]

  step-Alike :
      (key : SortKey) (d e : Demoting Text V N)
      → cnum_of x m key ≡ none
      → cnum_of y n key ≡ none
      → Alike d.items e.items
      → Alike
          (sort_key_step x place m max_cnum key d).items
          (sort_key_step y place n max_cnum key e).items
  unfolding sort_key_step push_cnum
  step-Alike key d e p q h =
      let dir = key.direction in
      let item : SortItem Text V N = record {
        direction = dir;
        value = value_of x place m d.fake_cnum key;
      } in
      let other : SortItem Text V N = record {
        direction = dir;
        value = value_of y place n e.fake_cnum key;
      } in
      let same : alike item other ≡ true =
        ap (λ b. b && same_kind item.value other.value) (same_direction-same dir)
        ∙ value_of-same_kind key.sort_source key d.fake_cnum e.fake_cnum refl in
      rw p (
        rw q (
          subst (λ l. Alike l (push_item place max_cnum n other e).items)
            (sym (push_item-items m item d))
            (subst (λ l. Alike (d.items ++ item ∷ []) l) (sym (push_item-items n other e))
              (Alike-append d.items e.items item other h same))))

  keys-Alike :
      (keys : List SortKey) (d e : Demoting Text V N)
      → ((key : SortKey) → cnum_of x m key ≡ none)
      → ((key : SortKey) → cnum_of y n key ≡ none)
      → Alike d.items e.items
      → Alike
          (sort_keys_from x place m max_cnum keys d).items
          (sort_keys_from y place n max_cnum keys e).items
  unfolding sort_keys_from
  keys-Alike [] d e p q h = h
  keys-Alike (key ∷ keys) d e p q h =
      keys-Alike keys (sort_key_step x place m max_cnum key d)
        (sort_key_step y place n max_cnum key e) p q (step-Alike key d e (p key) (q key) h)

  -- Where no macro renders a citation number, the items of any two references by the same keys can
  -- be compared: no assertion on their lengths and directions fails, and no pair is of two kinds.
  pub ctx_sort_items-is_some :
      (c : Comparison Text V N) (keys : List SortKey)
      → ((key : SortKey) → cnum_of x m key ≡ none)
      → ((key : SortKey) → cnum_of y n key ≡ none)
      → is_some (
          cmp_demoting c
            (ctx_sort_items x place m keys max_cnum)
            (ctx_sort_items y place n keys max_cnum))
        ≡ true
  unfolding ctx_sort_items
  ctx_sort_items-is_some c keys p q =
      let start : Demoting Text V N = record { fake_cnum = none; items = [] } in
      cmp_demoting-is_some c (sort_keys_from x place m max_cnum keys start)
        (sort_keys_from y place n max_cnum keys start) (keys-Alike keys start start p q tt)
