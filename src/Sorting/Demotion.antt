-- ===== src/Sorting/Demotion.antt =====
-- The order of sort items: missing values, and the two sides changed over.
use citeproc_rs.Base.{
  Bool, true, false, Option, none, some, List, [], ◌∷◌, Ordering, compare, reverse_ordering,
  if◌then◌else◌, length, ◌==◌, ◌≡◌, refl, sym, ap, ◌∙◌, arith, Bool-cases, inl, inr,
}
use citeproc_rs.Dates.{partial_cmp_range}
use citeproc_rs.Dates.Order.{partial_cmp_range-swap, reverse_answer}
use citeproc_rs.Sorting.{
  SortDirection, ascending, descending, SortValue, macro_value, cnum_value, ordinary_value,
  number_value, names_value, date_value, SortItem, Demoting, Comparison, Demoted, left, right,
  or_equal, compare_demoting_none, directed, cmp_list, same_direction, cmp_values, cmp_item,
  cmp_items, cmp_demoting, answer, unless_equal,
}

module _ {M V N : Type 0} where
  abbrev pub is_missing : SortValue M V N → Bool
  is_missing (macro_value none) = true
  is_missing (cnum_value none) = true
  is_missing (ordinary_value none) = true
  is_missing (number_value none) = true
  is_missing (names_value none) = true
  is_missing (date_value none) = true
  is_missing _ = false

  abbrev pub same_kind : SortValue M V N → SortValue M V N → Bool
  same_kind (macro_value _) (macro_value _) = true
  same_kind (cnum_value _) (cnum_value _) = true
  same_kind (ordinary_value _) (ordinary_value _) = true
  same_kind (number_value _) (number_value _) = true
  same_kind (names_value _) (names_value _) = true
  same_kind (date_value _) (date_value _) = true
  same_kind _ _ = false

directed-demoted :
    (d : Option SortDirection) (o : Ordering)
    → (directed d (o, some left) ≡ Ordering.gt) × (directed d (o, some right) ≡ Ordering.lt)
unfolding directed
directed-demoted none o = (refl, refl)
directed-demoted (some ascending) o = (refl, refl)
directed-demoted (some descending) o = (refl, refl)

pub same_direction-same : (d : Option SortDirection) → same_direction d d ≡ true
unfolding same_direction
same_direction-same none = refl
same_direction-same (some ascending) = refl
same_direction-same (some descending) = refl

module _ {M V N : Type 0} (c : Comparison M V N) where
  cmp_values-missing :
      (a b : SortValue M V N)
      → same_kind a b ≡ true
      → is_missing a ≡ true
      → is_missing b ≡ false
      → (cmp_values c a b ≡ some (Ordering.gt, some left))
        × (cmp_values c b a ≡ some (Ordering.lt, some right))
  unfolding cmp_values compare_demoting_none
  cmp_values-missing (macro_value none) (macro_value (some y)) h k l = (refl, refl)
  cmp_values-missing (cnum_value none) (cnum_value (some y)) h k l = (refl, refl)
  cmp_values-missing (ordinary_value none) (ordinary_value (some y)) h k l = (refl, refl)
  cmp_values-missing (number_value none) (number_value (some y)) h k l = (refl, refl)
  cmp_values-missing (names_value none) (names_value (some y)) h k l = (refl, refl)
  cmp_values-missing (date_value none) (date_value (some y)) h k l = (refl, refl)
  cmp_values-missing a b h k l = cc

  -- Of two items of one key, the one that has no value comes after the one that has, whatever the
  -- direction of the key and whatever the order of the values.
  pub cmp_item-missing :
      (d : Option SortDirection) (a b : SortValue M V N)
      → same_kind a b ≡ true
      → is_missing a ≡ true
      → is_missing b ≡ false
      → (cmp_item c (record { direction = d; value = a }) (record { direction = d; value = b })
          ≡ some Ordering.gt)
        × (cmp_item c (record { direction = d; value = b }) (record { direction = d; value = a })
            ≡ some Ordering.lt)
  unfolding cmp_item
  cmp_item-missing d a b h k l =
      let (e, f) = cmp_values-missing a b h k l in
      let s = same_direction-same d in
      (
        ap (λ t. answer t d (cmp_values c a b)) s
            ∙ (ap (answer true d) e ∙ ap (λ o. some o) (directed-demoted d Ordering.gt).0),
        ap (λ t. answer t d (cmp_values c b a)) s
            ∙ (ap (answer true d) f ∙ ap (λ o. some o) (directed-demoted d Ordering.lt).1),
      )

reverse_answer-or_equal :
    (o : Option Ordering) → or_equal (reverse_answer o) ≡ reverse_ordering (or_equal o)
unfolding or_equal
reverse_answer-or_equal none = refl
reverse_answer-or_equal (some o) = refl

-- the sides of a comparison change over
abbrev Swaps : {T : Type 0} → (T → T → Option Ordering) → Type 0
Swaps {T} cmp = (x y : T) → cmp y x ≡ reverse_answer (cmp x y)

directed-reverse :
    (d : Option SortDirection) (o : Ordering)
    → directed d (reverse_ordering o, none) ≡ reverse_ordering (directed d (o, none))
unfolding directed
directed-reverse none o = refl
directed-reverse (some ascending) o = refl
directed-reverse (some descending) o = refl

directed-swap :
    {T : Type 0} (cmp : T → T → Option Ordering) (d : Option SortDirection) (a b : Option T)
    → Swaps cmp
    → directed d (compare_demoting_none cmp b a)
      ≡ reverse_ordering (directed d (compare_demoting_none cmp a b))
unfolding compare_demoting_none
directed-swap cmp d none none h = directed-reverse d Ordering.eq
directed-swap cmp d none (some y) h =
    (directed-demoted d Ordering.lt).1
    ∙ ap reverse_ordering (sym (directed-demoted d Ordering.gt).0)
directed-swap cmp d (some x) none h =
    (directed-demoted d Ordering.gt).0
    ∙ ap reverse_ordering (sym (directed-demoted d Ordering.lt).1)
directed-swap cmp d (some x) (some y) h =
    ap (λ o. directed d (or_equal o, none)) (h x y)
    ∙ (ap (λ o. directed d (o, none)) (reverse_answer-or_equal (cmp x y))
        ∙ directed-reverse d (or_equal (cmp x y)))

unless_equal-reverse :
    (o rest : Option Ordering)
    → unless_equal (reverse_answer o) (reverse_answer rest) ≡ reverse_answer (unless_equal o rest)
unfolding unless_equal
unless_equal-reverse none rest = refl
unless_equal-reverse (some Ordering.eq) rest = refl
unless_equal-reverse (some Ordering.lt) rest = refl
unless_equal-reverse (some Ordering.gt) rest = refl

cmp_list-swap : {T : Type 0} (cmp : T → T → Option Ordering) → Swaps cmp → Swaps (cmp_list cmp)
unfolding cmp_list
cmp_list-swap cmp h [] [] = refl
cmp_list-swap cmp h [] (_ ∷ _) = refl
cmp_list-swap cmp h (_ ∷ _) [] = refl
cmp_list-swap cmp h (x ∷ xs) (y ∷ ys) =
    ap (λ o. unless_equal o (cmp_list cmp ys xs)) (h x y)
    ∙ (ap (unless_equal (reverse_answer (cmp x y))) (cmp_list-swap cmp h xs ys)
        ∙ unless_equal-reverse (cmp x y) (cmp_list cmp xs ys))

compare-swap : Swaps (λ m n. some (compare m n))
compare-swap m n = ground arith

answer-swap :
    (d e : Option SortDirection) (p q : Option (Ordering × Option Demoted))
    → answer true d q ≡ reverse_answer (answer true d p)
    → answer (same_direction e d) e q ≡ reverse_answer (answer (same_direction d e) d p)
unfolding same_direction answer
answer-swap none none p q h = h
answer-swap (some ascending) (some ascending) p q h = h
answer-swap (some descending) (some descending) p q h = h
answer-swap none (some ascending) p q h = refl
answer-swap none (some descending) p q h = refl
answer-swap (some ascending) none p q h = refl
answer-swap (some ascending) (some descending) p q h = refl
answer-swap (some descending) none p q h = refl
answer-swap (some descending) (some ascending) p q h = refl

symmetric :
    {M V N : Type 0} (a b : Demoting M V N)
    → (length b.items == length a.items) ≡ (length a.items == length b.items)
symmetric a b = ground arith

module _ {M V N : Type 0} (c : Comparison M V N) (macros : Swaps c.cmp_macro)
    (texts : Swaps c.cmp_text) (numbers : Swaps c.cmp_number) where
  cmp_values-swap :
      (d : Option SortDirection) (a b : SortValue M V N)
      → answer true d (cmp_values c b a) ≡ reverse_answer (answer true d (cmp_values c a b))
  unfolding cmp_values answer
  cmp_values-swap d (cnum_value a) (cnum_value b) =
      ap (λ o. some o) (directed-swap (λ m n. some (compare m n)) d a b compare-swap)
  cmp_values-swap d (macro_value a) (macro_value b) =
      ap (λ o. some o) (directed-swap c.cmp_macro d a b macros)
  cmp_values-swap d (ordinary_value a) (ordinary_value b) =
      ap (λ o. some o) (directed-swap c.cmp_text d a b texts)
  cmp_values-swap d (number_value a) (number_value b) =
      ap (λ o. some o) (directed-swap c.cmp_number d a b numbers)
  cmp_values-swap d (names_value a) (names_value b) =
      ap (λ o. some o) (directed-swap (cmp_list c.cmp_text) d a b (cmp_list-swap c.cmp_text texts))
  cmp_values-swap d (date_value a) (date_value b) =
      ap (λ o. some o)
        (directed-swap partial_cmp_range d a b (λ x y. (partial_cmp_range-swap x y).1))
  cmp_values-swap d a b = refl

  cmp_items-swap :
      (xs ys : List (SortItem M V N)) → cmp_items c ys xs ≡ reverse_answer (cmp_items c xs ys)
  unfolding cmp_items cmp_item
  cmp_items-swap [] [] = refl
  cmp_items-swap [] (_ ∷ _) = refl
  cmp_items-swap (_ ∷ _) [] = refl
  cmp_items-swap (a ∷ xs) (b ∷ ys) =
      ap (λ o. unless_equal o (cmp_items c ys xs))
        (answer-swap a.direction b.direction (cmp_values c a.value b.value)
          (cmp_values c b.value a.value) (cmp_values-swap a.direction a.value b.value))
      ∙ (ap (unless_equal (reverse_answer (cmp_item c a b))) (cmp_items-swap xs ys)
          ∙ unless_equal-reverse (cmp_item c a b) (cmp_items c xs ys))

  -- Where the orders of texts and numbers answer the opposite for changed sides, so does the order
  -- of references: a pair is in the order opposite to that of the pair changed over, for any keys
  -- and directions and with missing values, and panics only where that panics.
  cmp_demoting-swap :
      (a b : Demoting M V N) → cmp_demoting c b a ≡ reverse_answer (cmp_demoting c a b)
  unfolding cmp_demoting
  cmp_demoting-swap a b = elim (Bool-cases (length a.items == length b.items)) [
    | inl e ↦
        ap (λ t. if t then cmp_items c b.items a.items else none) (symmetric a b ∙ e)
        ∙ (cmp_items-swap a.items b.items
            ∙ ap (λ t. reverse_answer (if t then cmp_items c a.items b.items else none)) (sym e))
    | inr e ↦
        ap (λ t. if t then cmp_items c b.items a.items else none) (symmetric a b ∙ e)
        ∙ ap (λ t. reverse_answer (if t then cmp_items c a.items b.items else none)) (sym e)
  ]
