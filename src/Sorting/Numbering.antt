-- ===== src/Sorting/Numbering.antt =====
-- The numbers of a bibliography are those of its order.
use citeproc_rs.Base.{
  ℕ, Bool, true, false, Option, none, some, List, [], ◌∷◌, ◌+◌, ◌-◌, ◌^◌, ◌≤◌, ◌<◌, length, is_some,
  if◌then◌else◌, ◌≡◌, refl, sym, ap, ◌∙◌, arith, map, ◌==◌, Bool-cases, inl, inr,
}
use citeproc_rs.Base.Counts.{contains-append, Distinct-append}
use citeproc_rs.Base.Map.{Map, empty}
use citeproc_rs.Base.Sets.{contains, Distinct}
use citeproc_rs.YearSuffixes.{BibNumber, cited, uncited, get}
use citeproc_rs.Sorting.Refs.{
  Preorder, add_ref, add_refs, difference, preorder, set_number, number_at, renumber_entry,
  renumber_ref, renumber,
}

-- what holds of a preorder: its references are distinct, and are those with a number
abbrev pub Sound : Preorder → Type 0
Sound p =
    Distinct p.preordered × ((k : ℕ) → is_some (p.citation_numbers k) ≡ contains k p.preordered)

pub add_ref-Sound :
    (kind : ℕ → BibNumber) (id : ℕ) (p : Preorder) → Sound p → Sound (add_ref kind id p)
unfolding add_ref
add_ref-Sound kind id p (d, h) = elim (Bool-cases (is_some (p.citation_numbers id))) [
  | inl e ↦ rw e (d, h)
  | inr e ↦ rw e (
    Distinct-append p.preordered id (sym (h id) ∙ e) d,
    λ k. ground (arith, h k, contains-append k p.preordered (id ∷ [])),
  )
]

pub add_refs-Sound :
    (kind : ℕ → BibNumber) (ids : List ℕ) (p : Preorder) → Sound p → Sound (add_refs kind ids p)
unfolding add_refs
add_refs-Sound kind [] p s = s
add_refs-Sound kind (id ∷ ids) p s =
    add_refs-Sound kind ids (add_ref kind id p) (add_ref-Sound kind id p s)

pub preorder-Sound : (cited_keys participants : List ℕ) → Sound (preorder cited_keys participants)
unfolding preorder
preorder-Sound cited_keys participants =
    let start : Preorder = record { preordered = []; citation_numbers = empty; i = 1 } in
    add_refs-Sound uncited (difference participants cited_keys) (add_refs cited cited_keys start)
      (add_refs-Sound cited cited_keys start (tt, λ k. refl))

abbrev pub number_of : Option BibNumber → Option ℕ
number_of none = none
number_of (some bn) = some (get bn)

-- the numbers of a list in its order, or in the opposite one
abbrev pub positions : Bool → ℕ → ℕ → List ℕ → List (Option ℕ)
positions reverse n ix [] = []
positions reverse n ix (_ ∷ ks) =
    some (if reverse then n - ix else ix + 1) ∷ positions reverse n (ix + 1) ks

number_at_lem :
    (reverse : Bool) (n ix : ℕ)
    → ix < n
    → n < 2 ^ 32
    → number_at reverse n ix ≡ (if reverse then n - ix else ix + 1)
unfolding number_at
number_at_lem true n ix h k = omega arith
number_at_lem false n ix h k = omega arith

-- whether a number is that of a cited reference
abbrev pub cited_at : Option BibNumber → Bool
cited_at (some (cited _)) = true
cited_at _ = false

renumber_entry_lem :
    (i r : ℕ) (numbers : Map BibNumber) (o : Option BibNumber) (k : ℕ)
    → numbers r ≡ o
    → (is_some (renumber_entry i r numbers o k) ≡ is_some (numbers k))
      × (cited_at (renumber_entry i r numbers o k) ≡ cited_at (numbers k))
unfolding renumber_entry set_number
renumber_entry_lem i r numbers none k e = (refl, refl)
renumber_entry_lem i r numbers (some (cited b)) k e = (ground (arith, e), ground (arith, e))
renumber_entry_lem i r numbers (some (uncited b)) k e = (ground (arith, e), ground (arith, e))

renumber_entry-other :
    (i r : ℕ) (numbers : Map BibNumber) (o : Option BibNumber) (k : ℕ)
    → (r == k) ≡ false
    → renumber_entry i r numbers o k ≡ numbers k
unfolding renumber_entry
renumber_entry-other i r numbers none k e = refl
renumber_entry-other i r numbers (some b) k e = ground (arith, e)

renumber_entry-own :
    (i r : ℕ) (numbers : Map BibNumber) (o : Option BibNumber)
    → is_some o ≡ true
    → number_of (renumber_entry i r numbers o r) ≡ some i
unfolding renumber_entry set_number get
renumber_entry-own i r numbers none h = cc
renumber_entry-own i r numbers (some (cited b)) h = ground arith
renumber_entry-own i r numbers (some (uncited b)) h = ground arith

pub renumber-kept :
    (reverse : Bool) (n ix : ℕ) (refs : List ℕ) (numbers : Map BibNumber) (k : ℕ)
    → (is_some (renumber reverse n ix refs numbers k) ≡ is_some (numbers k))
      × (cited_at (renumber reverse n ix refs numbers k) ≡ cited_at (numbers k))
unfolding renumber renumber_ref
renumber-kept reverse n ix [] numbers k = (refl, refl)
renumber-kept reverse n ix (r ∷ refs) numbers k =
    let i = number_at reverse n ix in
    let (e, f) = renumber_entry_lem i r numbers (numbers r) k refl in
    let (g, h) = renumber-kept reverse n (ix + 1) refs (renumber_ref i r numbers) k in
    (g ∙ e, h ∙ f)

renumber-other :
    (reverse : Bool) (n ix : ℕ) (refs : List ℕ) (numbers : Map BibNumber) (k : ℕ)
    → contains k refs ≡ false
    → renumber reverse n ix refs numbers k ≡ numbers k
unfolding renumber renumber_ref
renumber-other reverse n ix [] numbers k h = refl
renumber-other reverse n ix (r ∷ refs) numbers k h =
    let i = number_at reverse n ix in
    renumber-other reverse n (ix + 1) refs (renumber_ref i r numbers) k (ground (arith, h))
    ∙ renumber_entry-other i r numbers (numbers r) k (ground (arith, h))

pub renumber-positions :
    (reverse : Bool) (n ix : ℕ) (refs : List ℕ) (numbers : Map BibNumber)
    → Distinct refs
    → ((k : ℕ) → contains k refs ≡ true → is_some (numbers k) ≡ true)
    → ix + length refs ≤ n
    → n < 2 ^ 32
    → map (λ k. number_of (renumber reverse n ix refs numbers k)) refs ≡ positions reverse n ix refs
unfolding renumber renumber_ref
renumber-positions reverse n ix [] numbers d h le lt = refl
renumber-positions reverse n ix (r ∷ refs) numbers (e, d) h le lt =
    let i = number_at reverse n ix in
    let after = renumber_ref i r numbers in
    let own =
      ap number_of (renumber-other reverse n (ix + 1) refs after r e)
      ∙ renumber_entry-own i r numbers (numbers r) (h r (ground arith)) in
    let rest =
      renumber-positions reverse n (ix + 1) refs after d
        (λ k c. (renumber_entry_lem i r numbers (numbers r) k refl).0 ∙ h k (ground (arith, c)))
        (omega (arith, le)) lt in
    ap (λ o. o ∷ map (λ k. number_of (renumber reverse n (ix + 1) refs after k)) refs)
      (own ∙ ap (λ j. some j) (number_at_lem reverse n ix (omega (arith, le)) lt))
    ∙ ap (λ l. some (if reverse then n - ix else ix + 1) ∷ l) rest
