-- ===== src/YearSuffixes/Assignment.antt =====
-- The suffixes of one group, in the order of the bibliography.
use citeproc_rs.Base.{
  ℕ, zero, suc, ◌+◌, ◌<◌, ◌≤◌, Bool, true, false, ◌||◌, List, [], ◌∷◌, ◌%◌, ◌^◌, ◌-◌, Option-cases,
  inl, inr, none, some, ◌≡◌, refl, arith, leb, length, get_elem?, ==_iff, ◌==◌, if◌then◌else◌,
  is_some, Option-cases, inl, ◌∙◌, Bool-cases, ap, sym,
}
use citeproc_rs.Base.Map.{Map, insert}
use citeproc_rs.Base.Sets.{contains, Distinct, sort_insert, sort_by_key}
use citeproc_rs.YearSuffixes.{BibNumber, assign_all, assign_group, ref_bib_number}

-- no reference of a list has a suffix yet
abbrev pub all_unsuffixed : Map ℕ → List ℕ → Bool
all_unsuffixed suffixes [] = true
all_unsuffixed suffixes (r ∷ rs) =
    let rest = all_unsuffixed suffixes rs in if is_some (suffixes r) then false else rest

unsuffixed-insert :
    (r i : ℕ) (suffixes : Map ℕ) (rs : List ℕ)
    → contains r rs ≡ false
    → all_unsuffixed suffixes rs ≡ true
    → all_unsuffixed (insert r i suffixes) rs ≡ true
unsuffixed-insert r i suffixes [] out h = refl
unsuffixed-insert r i suffixes (x ∷ xs) out h = ground (arith, unsuffixed-insert r i suffixes xs)

-- a reference that is not in the list keeps what it has
pub assign_all-other :
    (x : ℕ) (rs : List ℕ) (i : ℕ) (suffixes : Map ℕ)
    → contains x rs ≡ false
    → assign_all rs i suffixes x ≡ suffixes x
unfolding assign_all
assign_all-other x [] i suffixes out = refl
assign_all-other x (r ∷ rs) i suffixes out = elim (Option-cases (suffixes r)) [
  | inl e ↦
      rw e (
        assign_all-other x rs ((i + 1) % 2 ^ 32) (insert r i suffixes) (ground arith)
        ∙ ground arith)
  | inr (old, e) ↦ rw e (assign_all-other x rs i suffixes (ground arith))
]

-- the position of each reference of a list that has none with a suffix gives its suffix
assign_all-get_elem? :
    (rs : List ℕ) (i : ℕ) (suffixes : Map ℕ) (k r : ℕ)
    → Distinct rs
    → all_unsuffixed suffixes rs ≡ true
    → i + length rs < 2 ^ 32
    → get_elem? rs k ≡ some r
    → assign_all rs i suffixes r ≡ some (i + k)
unfolding assign_all
assign_all-get_elem? [] i suffixes k r d u fits at_k = ground arith
assign_all-get_elem? (x ∷ xs) i suffixes zero r (new, d) u fits at_k =
    let same : x ≡ r = ground arith in
    let step = assign_all-other x xs ((i + 1) % 2 ^ 32) (insert x i suffixes) new in
    ground (arith, step, same)
assign_all-get_elem? (x ∷ xs) i suffixes (suc k) r (new, d) u fits at_k =
    let fresh : suffixes x ≡ none = ground (arith, u) in
    let u' = unsuffixed-insert x i suffixes xs new (ground (arith, u)) in
    let next : (i + 1) % 2 ^ 32 ≡ i + 1 = omega (arith, fits) in
    let rest =
      assign_all-get_elem? xs (i + 1) (insert x i suffixes) k r d u' (omega (arith, fits)) at_k in
    ground (arith, fresh, rest, next)

index_of :
    (x : ℕ) (xs : List ℕ)
    → contains x xs ≡ true
    → (i : ℕ) × (get_elem? xs i ≡ some x) × (i < length xs)
index_of x [] h = cc
index_of x (z ∷ zs) h = elim (Bool-cases (z == x)) [
  | inl e ↦ (0, ap some ((==_iff z x).0 e), omega arith)
  | inr e ↦
      let (i, at_i, in_range) = index_of x zs (ground arith) in
      (i + 1, ground (arith, at_i), omega (arith, in_range))
]

module _ (key : ℕ → ℕ) where
  abbrev pub Sorted : List ℕ → Type 0
  Sorted [] = Unit
  Sorted (x ∷ xs) = ((y : ℕ) → contains y xs ≡ true → key x ≤ key y) × Sorted xs

  contains-sort_insert :
      (y x : ℕ) (xs : List ℕ) → contains y (sort_insert key x xs) ≡ ((x == y) || contains y xs)
  contains-sort_insert y x [] = refl
  contains-sort_insert y x (z ∷ zs) = ground (arith, contains-sort_insert y x zs)

  sort_insert-Sorted : (x : ℕ) (xs : List ℕ) → Sorted xs → Sorted (sort_insert key x xs)
  sort_insert-Sorted x [] s = ((λ y h. ground arith), tt)
  sort_insert-Sorted x (z ∷ zs) (least, s) = elim (Bool-cases (leb (key x) (key z))) [
    | inl e ↦ rw e ((λ y h. ground (arith, least y)), (least, s))
    | inr e ↦ rw e (
      (λ y h. ground (arith, least y, contains-sort_insert y x zs, ==_iff x y, h)),
      sort_insert-Sorted x zs s,
    )
  ]

  pub contains-sort_by_key : (y : ℕ) (xs : List ℕ) → contains y (sort_by_key key xs) ≡ contains y xs
  contains-sort_by_key y [] = refl
  contains-sort_by_key y (x ∷ xs) =
      contains-sort_insert y x (sort_by_key key xs)
      ∙ ap (λ b. (x == y) || b) (contains-sort_by_key y xs)

  sort_by_key-Sorted : (xs : List ℕ) → Sorted (sort_by_key key xs)
  sort_by_key-Sorted [] = tt
  sort_by_key-Sorted (x ∷ xs) = sort_insert-Sorted x (sort_by_key key xs) (sort_by_key-Sorted xs)

  sort_insert-Distinct :
      (x : ℕ) (xs : List ℕ) → contains x xs ≡ false → Distinct xs → Distinct (sort_insert key x xs)
  sort_insert-Distinct x [] out d = (refl, tt)
  sort_insert-Distinct x (z ∷ zs) out (new, d) = elim (Bool-cases (leb (key x) (key z))) [
    | inl e ↦ rw e (out, (new, d))
    | inr e ↦ rw e (
      ground (arith, contains-sort_insert z x zs, ==_iff x z),
      sort_insert-Distinct x zs (ground arith) d,
    )
  ]

  sort_by_key-Distinct : (xs : List ℕ) → Distinct xs → Distinct (sort_by_key key xs)
  sort_by_key-Distinct [] d = tt
  sort_by_key-Distinct (x ∷ xs) (new, d) =
      sort_insert-Distinct x (sort_by_key key xs) (contains-sort_by_key x xs ∙ new)
        (sort_by_key-Distinct xs d)

  length-sort_insert : (x : ℕ) (xs : List ℕ) → length (sort_insert key x xs) ≡ suc (length xs)
  length-sort_insert x [] = refl
  length-sort_insert x (z ∷ zs) = ground (arith, length-sort_insert x zs)

  length-sort_by_key : (xs : List ℕ) → length (sort_by_key key xs) ≡ length xs
  length-sort_by_key [] = refl
  length-sort_by_key (x ∷ xs) =
      length-sort_insert x (sort_by_key key xs) ∙ ap suc (length-sort_by_key xs)

  -- in a sorted list, a smaller key comes earlier
  Sorted-earlier :
      (xs : List ℕ) (x y : ℕ)
      → Sorted xs
      → contains x xs ≡ true
      → contains y xs ≡ true
      → key x < key y
      → (i : ℕ) × (j : ℕ) × (get_elem? xs i ≡ some x)
        × (get_elem? xs j ≡ some y)
        × (i < j)
        × (j < length xs)
  Sorted-earlier [] x y s h k less = cc
  Sorted-earlier (z ∷ zs) x y (least, s) h k less = elim (Bool-cases (z == x)) [
    | inl e ↦
        let same = (==_iff z x).0 e in
        let later : contains y zs ≡ true = ground (arith, same, ==_iff z y) in
        let (j, at_j, in_range) = index_of y zs later in
        (0, j + 1, ap some same, ground (arith, at_j), omega arith, omega (arith, in_range))
    | inr e ↦
        let x_later : contains x zs ≡ true = ground arith in
        let y_later : contains y zs ≡ true = ground (arith, least x x_later, ==_iff z y) in
        let (i, j, at_i, at_j, less', in_range) = Sorted-earlier zs x y s x_later y_later less in
        (
          i + 1,
          j + 1,
          ground (arith, at_i),
          ground (arith, at_j),
          omega (arith, less'),
          omega (arith, in_range),
        )
  ]

unsuffixed_lem :
    (suffixes : Map ℕ) (rs : List ℕ)
    → ((x : ℕ) → contains x rs ≡ true → suffixes x ≡ none)
    → all_unsuffixed suffixes rs ≡ true
unsuffixed_lem suffixes [] h = refl
unsuffixed_lem suffixes (r ∷ rs) h =
    let here = h r (ground arith) in
    let rest = unsuffixed_lem suffixes rs (λ x k. h x (ground (arith, k))) in
    ground (arith, here, rest)

-- In a group of two references or more, each listed once and without a suffix so far, the
-- suffixes count from 1 in the order of the bibliography: of two references with different
-- bibliography numbers both get one, the earlier the smaller, and none is over the group's size.
pub assign_group-order :
    (bib_numbers : Map BibNumber) (suffixes : Map ℕ) (group : List ℕ) (x y : ℕ)
    → 1 < length group
    → length group < 2 ^ 32 - 1
    → Distinct group
    → ((z : ℕ) → contains z group ≡ true → suffixes z ≡ none)
    → contains x group ≡ true
    → contains y group ≡ true
    → ref_bib_number bib_numbers x < ref_bib_number bib_numbers y
    → (i : ℕ) × (j : ℕ) × (assign_group bib_numbers suffixes group x ≡ some i)
      × (assign_group bib_numbers suffixes group y ≡ some j)
      × (0 < i)
      × (i < j)
      × (j ≤ length group)
unfolding assign_group
assign_group-order bib_numbers suffixes group x y many few d none_yet x_in y_in less =
    let key = ref_bib_number bib_numbers in
    let vec = sort_by_key key group in
    let d' = sort_by_key-Distinct key group d in
    let size = length-sort_by_key key group in
    let fresh =
      unsuffixed_lem suffixes vec
        (λ z h. none_yet z (sym (contains-sort_by_key key z group) ∙ h)) in
    let fits : 1 + length vec < 2 ^ 32 = omega (arith, size, few) in
    let (i, j, at_i, at_j, earlier, in_range) =
      Sorted-earlier key vec x y (sort_by_key-Sorted key group)
        (contains-sort_by_key key x group ∙ x_in) (contains-sort_by_key key y group ∙ y_in) less in
    let more : leb (length group) 1 ≡ false = ground arith in
    (
      1 + i,
      1 + j,
      rw more (assign_all-get_elem? vec 1 suffixes i x d' fresh fits at_i),
      rw more (assign_all-get_elem? vec 1 suffixes j y d' fresh fits at_j),
      omega arith,
      omega (arith, earlier),
      omega (arith, in_range, size),
    )
