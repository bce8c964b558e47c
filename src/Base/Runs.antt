-- ===== src/Base/Runs.antt =====
-- `slice::group_by`: the runs of neighbours that a test joins.
use mathlib.Core.Logic.{inl, inr}
use mathlib.Core.Bool.{Bool, true, false, not, ◌&&◌}
use mathlib.Core.List.{List, [], ◌∷◌, ◌++◌, map}
use native.Mathlib.Omega.{arith}
use mathlib.Core.Path.{subst, sym, ◌≡◌, refl, ap, ◌∙◌}
use citeproc_rs.Base.Lists.{is_empty, all, All}
use citeproc_rs.Base.Tests.{Bool-cases}

module _ {ℓ} {A : Type ℓ} where
  -- an item starts a run of its own, or joins the run after it
  abbrev pub join_run : Bool → A → List (List A) → List (List A)
  join_run linked x [] = (x ∷ []) ∷ []
  join_run true x (r ∷ rs) = (x ∷ r) ∷ rs
  join_run false x (r ∷ rs) = (x ∷ []) ∷ r ∷ rs

  -- whether the test joins an item to the one after it
  abbrev pub linked_to : (A → A → Bool) → A → List A → Bool
  linked_to p x [] = false
  linked_to p x (y ∷ ys) = p x y

  abbrev pub group_by : (A → A → Bool) → List A → List (List A)
  group_by p [] = []
  group_by p (x ∷ xs) = join_run (linked_to p x xs) x (group_by p xs)

  abbrev pub concat : List (List A) → List A
  concat [] = []
  concat (r ∷ rs) = r ++ concat rs

  -- The runs of a list that is not empty start with one that is not empty, and has more items exactly
  -- when the first two are joined.
  pub group_by-cons :
      (p : A → A → Bool) (x : A) (xs : List A)
      → (r : List A) × (rs : List (List A)) × (group_by p (x ∷ xs) ≡ (x ∷ r) ∷ rs)
        × (linked_to p x xs ≡ not (is_empty r))
  group_by-cons p x [] = ([], [], refl, refl)
  group_by-cons p x (y ∷ ys) =
      let (r, rs, e, l) = group_by-cons p y ys in
      elim (Bool-cases (p x y)) [
        | inl h ↦
            (y ∷ r, rs, ap (λ b. join_run b x (group_by p (y ∷ ys))) h ∙ ap (join_run true x) e, h)
        | inr h ↦ (
          [],
          (y ∷ r) ∷ rs,
          ap (λ b. join_run b x (group_by p (y ∷ ys))) h ∙ ap (join_run false x) e,
          h,
        )
      ]

  concat-join_run :
      (b : Bool) (x : A) (rs : List (List A)) → concat (join_run b x rs) ≡ x ∷ concat rs
  concat-join_run b x [] = refl
  concat-join_run true x (r ∷ rs) = refl
  concat-join_run false x (r ∷ rs) = refl

  -- The runs are the list, cut in pieces.
  pub concat-group_by : (p : A → A → Bool) (xs : List A) → concat (group_by p xs) ≡ xs
  concat-group_by p [] = refl
  concat-group_by p (x ∷ xs) =
      concat-join_run (linked_to p x xs) x (group_by p xs) ∙ ap (λ l. x ∷ l) (concat-group_by p xs)

  pub all-append : (p : A → Bool) (xs ys : List A) → all p (xs ++ ys) ≡ (all p xs && all p ys)
  all-append p [] ys = refl
  all-append p (x ∷ xs) ys = ground (arith, all-append p xs ys)

  all-pieces :
      (p : A → Bool) (rs : List (List A)) → all p (concat rs) ≡ true → All (λ r. all p r ≡ true) rs
  all-pieces p [] h = tt
  all-pieces p (r ∷ rs) h =
      let e = all-append p r (concat rs) in
      (ground (arith, e, h), all-pieces p rs (ground (arith, e, h)))

  -- What holds of every item holds of every item of every run.
  pub all-group_by :
      (p : A → Bool) (q : A → A → Bool) (xs : List A)
      → all p xs ≡ true
      → All (λ r. all p r ≡ true) (group_by q xs)
  all-group_by p q xs h = all-pieces p (group_by q xs) (ap (all p) (concat-group_by q xs) ∙ h)

  pub all-concat :
      (p : A → Bool) (rs : List (List A)) → All (λ r. all p r ≡ true) rs → all p (concat rs) ≡ true
  all-concat p [] h = refl
  all-concat p (r ∷ rs) (h, hs) = all-append p r (concat rs) ∙ ground (arith, h, all-concat p rs hs)

  -- neighbours are joined by the test
  abbrev pub Chained : (A → A → Bool) → List A → Type 0
  Chained p [] = Unit
  Chained p (x ∷ []) = Unit
  Chained p (x ∷ y ∷ ys) = (p x y ≡ true) × Chained p (y ∷ ys)

  -- Neighbours in a run are joined by the test.
  pub group_by-Chained : (p : A → A → Bool) (xs : List A) → All (Chained p) (group_by p xs)
  group_by-Chained p [] = tt
  group_by-Chained p (x ∷ []) = (tt, tt)
  group_by-Chained p (x ∷ y ∷ ys) =
      let (r, rs, e, more) = group_by-cons p y ys in
      let rest : All (Chained p) ((y ∷ r) ∷ rs) =
        subst (All (Chained p)) e (group_by-Chained p (y ∷ ys)) in
      elim (Bool-cases (p x y)) [
        | inl h ↦
            let joined = ap (λ b. join_run b x (group_by p (y ∷ ys))) h ∙ ap (join_run true x) e in
            subst (All (Chained p)) (sym joined) ((h, rest.0), rest.1)
        | inr h ↦
            let joined = ap (λ b. join_run b x (group_by p (y ∷ ys))) h ∙ ap (join_run false x) e in
            subst (All (Chained p)) (sym joined) (tt, rest)
      ]

module _ {ℓ κ} {A : Type ℓ} {B : Type κ} where
  pub map-append : (f : A → B) (xs ys : List A) → map f (xs ++ ys) ≡ map f xs ++ map f ys
  map-append f [] ys = refl
  map-append f (x ∷ xs) ys = ap (λ l. f x ∷ l) (map-append f xs ys)

  -- A change of each piece that a view does not see is not seen in the whole.
  pub map-concat :
      (f : A → B) (g : List A → List A) (rs : List (List A))
      → ((r : List A) → map f (g r) ≡ map f r)
      → map f (concat (map g rs)) ≡ map f (concat rs)
  map-concat f g [] same = refl
  map-concat f g (r ∷ rs) same =
      map-append f (g r) (concat (map g rs))
      ∙ (ap (λ l. l ++ map f (concat (map g rs))) (same r)
          ∙ (ap (λ l. map f r ++ l) (map-concat f g rs same) ∙ sym (map-append f r (concat rs))))
