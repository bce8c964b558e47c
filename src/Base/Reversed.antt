-- ===== src/Base/Reversed.antt =====
-- Lists turned round, and tests of their ends and neighbours.
use mathlib.Core.Path.{◌≡◌, refl}
use mathlib.Core.Bool.{Bool, true, ◌&&◌}
use mathlib.Core.List.{List, [], ◌∷◌, map}
use native.Mathlib.Omega.{arith}

module _ {ℓ} {A : Type ℓ} where
  abbrev pub reverse_onto : List A → List A → List A
  reverse_onto [] ys = ys
  reverse_onto (x ∷ xs) ys = reverse_onto xs (x ∷ ys)

  abbrev pub reversed : List A → List A
  reversed xs = reverse_onto xs []

  -- a test of the first item, and of the last, of a list that may be empty
  abbrev pub first_ok : (A → Bool) → List A → Bool
  first_ok p [] = true
  first_ok p (x ∷ xs) = p x

  abbrev pub last_ok : (A → Bool) → List A → Bool
  last_ok p [] = true
  last_ok p (x ∷ []) = p x
  last_ok p (x ∷ y ∷ ys) = last_ok p (y ∷ ys)

  -- a test of each item with the next
  abbrev pub neighbours : (A → A → Bool) → List A → Bool
  neighbours r [] = true
  neighbours r (x ∷ []) = true
  neighbours r (x ∷ y ∷ ys) = r x y && neighbours r (y ∷ ys)

  abbrev joined : (A → A → Bool) → List A → List A → Bool
  joined r (x ∷ _) (y ∷ _) = r x y
  joined r _ _ = true

  pub reversed-reverse_onto : (xs ys : List A) → reversed (reverse_onto xs ys) ≡ reverse_onto ys xs
  reversed-reverse_onto [] ys = refl
  reversed-reverse_onto (x ∷ xs) ys = reversed-reverse_onto xs (x ∷ ys)

  last_ok-onto :
      (p : A → Bool) (xs : List A) (y : A) (ys : List A)
      → last_ok p (reverse_onto xs (y ∷ ys)) ≡ last_ok p (y ∷ ys)
  last_ok-onto p [] y ys = refl
  last_ok-onto p (x ∷ xs) y ys = last_ok-onto p xs x (y ∷ ys)

  -- The last of a list that is turned round was the first.
  pub last_ok-reversed : (p : A → Bool) (xs : List A) → last_ok p (reversed xs) ≡ first_ok p xs
  last_ok-reversed p [] = refl
  last_ok-reversed p (x ∷ xs) = last_ok-onto p xs x []

  first_ok-onto :
      (p : A → Bool) (x : A) (xs ys : List A)
      → first_ok p (reverse_onto xs (x ∷ ys)) ≡ last_ok p (x ∷ xs)
  first_ok-onto p x [] ys = refl
  first_ok-onto p x (y ∷ xs) ys = first_ok-onto p y xs (x ∷ ys)

  -- The first of a list that is turned round was the last.
  pub first_ok-reversed : (p : A → Bool) (xs : List A) → first_ok p (reversed xs) ≡ last_ok p xs
  first_ok-reversed p [] = refl
  first_ok-reversed p (x ∷ xs) = first_ok-onto p x xs []

  neighbours-onto :
      (r : A → A → Bool) (xs ys : List A)
      → neighbours (λ a b. r b a) xs ≡ true
      → neighbours r ys ≡ true
      → joined r xs ys ≡ true
      → neighbours r (reverse_onto xs ys) ≡ true
  neighbours-onto r [] ys h k j = k
  neighbours-onto r (x ∷ []) [] h k j = refl
  neighbours-onto r (x ∷ []) (y ∷ ys) h k j = ground (arith, k, j)
  neighbours-onto r (x ∷ z ∷ xs) [] h k j =
      neighbours-onto r (z ∷ xs) (x ∷ []) (ground (arith, h)) refl (ground (arith, h))
  neighbours-onto r (x ∷ z ∷ xs) (y ∷ ys) h k j =
      neighbours-onto r (z ∷ xs) (x ∷ y ∷ ys) (ground (arith, h)) (ground (arith, k, j))
        (ground (arith, h))

  -- Neighbours that pass a test, last first, pass it in the list that is turned round.
  pub neighbours-reversed :
      (r : A → A → Bool) (xs : List A)
      → neighbours (λ a b. r b a) xs ≡ true
      → neighbours r (reversed xs) ≡ true
  neighbours-reversed r [] h = refl
  neighbours-reversed r (x ∷ xs) h = neighbours-onto r (x ∷ xs) [] h refl refl

module _ {ℓ κ} {A : Type ℓ} {B : Type κ} where
  pub map-reverse_onto :
      (f : A → B) (xs ys : List A) → map f (reverse_onto xs ys) ≡ reverse_onto (map f xs) (map f ys)
  map-reverse_onto f [] ys = refl
  map-reverse_onto f (x ∷ xs) ys = map-reverse_onto f xs (x ∷ ys)
