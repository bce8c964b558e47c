-- ===== src/Base/Texts.antt =====
-- Texts as lists of codes, with the operations of Rust's `str` that the code uses. Which codes are
-- white space is a parameter.
use citeproc_rs.Base.{◌∙◌, ap}
use Prim.Native.Nat.{ℕ}
use mathlib.Core.Path.{◌≡◌, refl}
use native.Mathlib.Omega.{arith}
use mathlib.Core.Bool.{Bool, false, true, ◌&&◌}
use mathlib.Core.Option.{Option, none, some}
use mathlib.Core.List.{List, [], ◌∷◌}
use citeproc_rs.Base.Reversed.{reversed}
use citeproc_rs.Base.Tests.{◌==◌, if◌then◌else◌}

abbrev pub Text : Type 0
Text = List ℕ

-- `trim_start`
abbrev pub trim_start : (ℕ → Bool) → Text → Text
trim_start ws [] = []
trim_start ws (c ∷ cs) = let rest = trim_start ws cs in if ws c then rest else c ∷ cs

-- `trim_end`
abbrev pub trim_end : (ℕ → Bool) → Text → Text
trim_end ws t = reversed (trim_start ws (reversed t))

abbrev pub trim : (ℕ → Bool) → Text → Text
trim ws t = trim_end ws (trim_start ws t)

-- `unwrap_or`
abbrev pub unwrap_or {ℓ} : {A : Type ℓ} → A → Option A → A
unwrap_or d none = d
unwrap_or d (some x) = x

-- `Option::or`
abbrev pub or_option {ℓ} : {A : Type ℓ} → Option A → Option A → Option A
or_option (some x) o = some x
or_option none o = o

-- `find_map`
abbrev pub first_of {ℓ κ} : {A : Type ℓ} {V : Type κ} → (A → Option V) → List A → Option V
first_of f [] = none
first_of f (x ∷ xs) = or_option (f x) (first_of f xs)

pub first_of_ext {ℓ κ} :
    {A : Type ℓ} {V : Type κ} (f g : A → Option V)
    → ((x : A) → f x ≡ g x)
    → (xs : List A) → first_of f xs ≡ first_of g xs
first_of_ext f g h [] = refl
first_of_ext f g h (x ∷ xs) =
    ap (λ o. or_option o (first_of f xs)) (h x) ∙ ap (or_option (g x)) (first_of_ext f g h xs)

-- `starts_with` a character
abbrev pub starts_with : ℕ → Text → Bool
starts_with c [] = false
starts_with c (d ∷ _) = d == c

-- `==` on texts
unfoldable pub same_text : Text → Text → Bool
same_text [] [] = true
same_text (a ∷ xs) (b ∷ ys) = let rest = same_text xs ys in (a == b) && rest
same_text _ _ = false

pub same_text_refl : (a : Text) → same_text a a ≡ true
unfolding same_text
same_text_refl [] = refl
same_text_refl (x ∷ xs) = ground (arith, same_text_refl xs)

pub same_text_sound : (a b : Text) → same_text a b ≡ true → a ≡ b
unfolding same_text
same_text_sound [] [] h = refl
same_text_sound [] (_ ∷ _) h = cc
same_text_sound (_ ∷ _) [] h = cc
same_text_sound (x ∷ xs) (y ∷ ys) h = ground (arith, same_text_sound xs ys, h)
