-- ===== src/Names/Shown.antt =====
-- Which names are among the tokens of crates/proc/src/names.rs.
use citeproc_rs.Base.{
  ◌-◌, ◌&&◌, ◌≡◌, ◌∙◌, ◌==◌, if◌then◌else◌, ◌+◌, ◌≤◌, ◌<◌, true, false, none, some, inl, inr, refl,
  arith, [], ◌∷◌, ◌++◌, ℕ, zero, suc, length, ap, Bool, Option, List, Bool-cases, leb,
}
use mathlib.Core.List.{append-nil}
use citeproc_rs.Base.Texts.{unwrap_or}
use citeproc_rs.Position.{Position}
use citeproc_rs.Names.{
  OneNameVar, NameToken, name, et_al, ellipsis, delimiter, and_token, space, enable_et_al, ea_min,
  ea_use_first, should_delimit_after, contextual, count_from, take, with_delimiters, intercalate,
  insert_and, et_al_end, cut_short, all_tokens, name_tokens,
}

-- whether the list is cut short
abbrev pub abbreviated : OneNameVar → Position → ℕ → Bool
abbreviated var pos n = enable_et_al var.name_el && leb (ea_min var pos) n

-- whether the last name is shown after the cut
abbrev pub shows_last : OneNameVar → ℕ → ℕ → Bool
shows_last var use_first n = unwrap_or false var.name_el.et_al_use_last && leb (use_first + 2) n

-- the names that a cut leaves
abbrev pub names_left : OneNameVar → ℕ → ℕ → List ℕ
names_left var use_first n =
    if use_first == 0
    then []
    else if shows_last var use_first n
    then count_from 0 use_first ++ (n - 1) ∷ []
    else count_from 0 use_first

take-count_from : (k i n : ℕ) → k ≤ n → take k (count_from i n) ≡ count_from i k
take-count_from zero i n h = refl
take-count_from (suc k) i zero h = absurd (omega (arith, h))
take-count_from (suc k) i (suc n) h =
    ap (λ r. i ∷ r) (take-count_from k (suc i) n (omega (arith, h)))

pub length-count_from : (i n : ℕ) → length (count_from i n) ≡ n
length-count_from i zero = refl
length-count_from i (suc n) = ap suc (length-count_from (suc i) n)

-- a cut leaves a name out
pub abbreviated-use_first :
    (var : OneNameVar) (pos : Position) (n : ℕ)
    → abbreviated var pos n ≡ true
    → ea_use_first var pos < n
unfolding ea_min ea_use_first
abbreviated-use_first var pos n h = ground (arith, h)

module _ {T : Type 0} where
  abbrev pub names_of : List (NameToken T) → List ℕ
  names_of [] = []
  names_of (name i ∷ ts) = i ∷ names_of ts
  names_of (_ ∷ ts) = names_of ts

  names_of-append : (xs ys : List (NameToken T)) → names_of (xs ++ ys) ≡ names_of xs ++ names_of ys
  names_of-append [] ys = refl
  names_of-append (name i ∷ xs) ys = ap (λ r. i ∷ r) (names_of-append xs ys)
  names_of-append (et_al t ∷ xs) ys = names_of-append xs ys
  names_of-append (ellipsis ∷ xs) ys = names_of-append xs ys
  names_of-append (delimiter ∷ xs) ys = names_of-append xs ys
  names_of-append (and_token ∷ xs) ys = names_of-append xs ys
  names_of-append (space ∷ xs) ys = names_of-append xs ys

names_of-with_delimiters : (T : Type 0) (is : List ℕ) → names_of (with_delimiters {T = T} is) ≡ is
unfolding with_delimiters
names_of-with_delimiters T [] = refl
names_of-with_delimiters T (i ∷ is) = ap (λ r. i ∷ r) (names_of-with_delimiters T is)

names_of-intercalate : (T : Type 0) (is : List ℕ) → names_of (intercalate {T = T} is) ≡ is
unfolding intercalate
names_of-intercalate T [] = refl
names_of-intercalate T (i ∷ is) = ap (λ r. i ∷ r) (names_of-with_delimiters T is)

module _ {T : Type 0} where
  names_of-insert_and :
      (keep : Bool) (ts : List (NameToken T)) → names_of (insert_and keep ts) ≡ names_of ts
  unfolding insert_and
  names_of-insert_and keep [] = refl
  names_of-insert_and keep (t ∷ ts) = ground (arith, names_of-insert_and keep ts)

  names_of-et_al_end :
      (var : OneNameVar) (k : ℕ) (term : Option T) → names_of (et_al_end var k term) ≡ []
  unfolding et_al_end
  names_of-et_al_end var k none = refl
  names_of-et_al_end var k (some t) = ground arith

  names_of-cut_short :
      (var : OneNameVar) (k n : ℕ) (is_sort_key : Bool) (term : Option T)
      → k ≤ n
      → names_of (cut_short var k n is_sort_key term) ≡ names_left var k n
  unfolding cut_short
  names_of-cut_short var k n is_sort_key term h =
      let cut = intercalate {T = T} (take k (count_from 0 n)) in
      let left = names_of-intercalate T (take k (count_from 0 n)) ∙ take-count_from k 0 n h in
      let end = if is_sort_key then [] else et_al_end var k term in
      let marked = names_of-append cut (delimiter ∷ ellipsis ∷ space ∷ name (n - 1) ∷ []) in
      let plain_end = names_of-append cut end in
      let no_names : names_of end ≡ [] = ground (arith, names_of-et_al_end var k term) in
      ground (arith, left, marked, plain_end, no_names, append-nil (count_from 0 k))

names_of-all_tokens :
    (T : Type 0) (var : OneNameVar) (n : ℕ) (is_sort_key : Bool)
    → names_of (all_tokens {T = T} var n is_sort_key) ≡ count_from 0 n
unfolding all_tokens
names_of-all_tokens T var n is_sort_key =
    let keep =
      should_delimit_after (unwrap_or contextual var.name_el.delimiter_precedes_last) var (n - 1) in
    let ts = intercalate {T = T} (count_from 0 n) in
    ground (arith, names_of-insert_and keep ts, names_of-intercalate T (count_from 0 n))

module _ {T : Type 0} where
  -- Where the list of names is not cut short, all the names are shown in their order. Where it is,
  -- the first `ea_use_first` are, and after them the last one if the style wants it and a name
  -- between is left out; none are where the number is 0.
  pub name_tokens-names :
      (var : OneNameVar) (pos : Position) (n : ℕ) (is_sort_key : Bool) (term : Option T)
      → names_of (name_tokens var pos n is_sort_key term) ≡ (
          if abbreviated var pos n then names_left var (ea_use_first var pos) n else count_from 0 n)
  unfolding name_tokens
  name_tokens-names var pos n is_sort_key term = elim (Bool-cases (abbreviated var pos n)) [
    | inl cut ↦
        let fewer : ea_use_first var pos ≤ n = omega (arith, abbreviated-use_first var pos n cut) in
        ground (arith, cut, names_of-cut_short var (ea_use_first var pos) n is_sort_key term fewer)
    | inr whole ↦ ground (arith, whole, names_of-all_tokens T var n is_sort_key)
  ]
