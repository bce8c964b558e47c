-- ===== src/Base/Counts.antt =====
-- How often a number stands in a list.
use citeproc_rs.Base.Tests.{◌==◌, ltb, if◌then◌else◌}
use citeproc_rs.Base.Lists.{length}
use citeproc_rs.Base.Sets.{contains, Distinct}
use Prim.Native.Nat.{ℕ, suc, ◌≤◌}
use mathlib.Core.Path.{◌≡◌, refl, sym, ap, ◌∙◌}
use mathlib.Core.Bool.{false, ◌||◌}
use mathlib.Core.List.{List, [], ◌∷◌, ◌++◌}
use native.Mathlib.Omega.{arith}

abbrev pub count : ℕ → List ℕ → ℕ
count k [] = 0
count k (x ∷ xs) = let rest = count k xs in if x == k then suc rest else rest

-- the second list is the first in some order
pub record Rearranged (xs : List ℕ) (ys : List ℕ) : Type 0 where
  pub same_length : length ys ≡ length xs
  pub same_count : (k : ℕ) → count k ys ≡ count k xs

pub contains-count : (k : ℕ) (xs : List ℕ) → contains k xs ≡ ltb 0 (count k xs)
contains-count k [] = refl
contains-count k (x ∷ xs) = ground (arith, contains-count k xs)

pub count-Distinct : (k : ℕ) (xs : List ℕ) → Distinct xs → count k xs ≤ 1
count-Distinct k [] h = omega arith
count-Distinct k (x ∷ xs) (h, hs) =
    ground (arith, h, contains-count k xs, contains-count x xs, count-Distinct k xs hs)

pub Distinct-of_count : (xs : List ℕ) → ((k : ℕ) → count k xs ≤ 1) → Distinct xs
Distinct-of_count [] h = tt
Distinct-of_count (x ∷ xs) h =
    (ground (arith, h x, contains-count x xs), Distinct-of_count xs (λ k. ground (arith, h k)))

-- A list of distinct numbers stays one in another order.
pub Rearranged-Distinct : (xs ys : List ℕ) → Rearranged xs ys → Distinct xs → Distinct ys
Rearranged-Distinct xs ys r d =
    Distinct-of_count ys (λ k. omega (arith, r.same_count k, count-Distinct k xs d))

pub Rearranged-contains :
    (xs ys : List ℕ) → Rearranged xs ys → (k : ℕ) → contains k ys ≡ contains k xs
Rearranged-contains xs ys r k =
    contains-count k ys ∙ (ap (ltb 0) (r.same_count k) ∙ sym (contains-count k xs))

pub contains-append :
    (k : ℕ) (xs ys : List ℕ) → contains k (xs ++ ys) ≡ (contains k xs || contains k ys)
contains-append k [] ys = refl
contains-append k (x ∷ xs) ys = ground (arith, contains-append k xs ys)

-- A new number may be put at the end.
pub Distinct-append :
    (xs : List ℕ) (k : ℕ) → contains k xs ≡ false → Distinct xs → Distinct (xs ++ k ∷ [])
Distinct-append [] k h d = (refl, tt)
Distinct-append (x ∷ xs) k h (e, d) = (
  ground (arith, h, e, contains-append x xs (k ∷ [])),
  Distinct-append xs k (ground (arith, h)) d,
)
