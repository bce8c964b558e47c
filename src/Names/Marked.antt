-- ===== src/Names/Marked.antt =====
-- The "et al" and the ellipsis among the tokens of crates/proc/src/names.rs.
use citeproc_rs.Base.{
  ◌≡◌, true, false, inl, inr, refl, arith, [], ◌∷◌, ◌-◌, ◌<◌, ℕ, length, length-append, Bool, List,
  Option, any, Bool-cases, sym,
}
use mathlib.Core.Path.{subst}
use citeproc_rs.Base.Texts.{unwrap_or}
use citeproc_rs.Position.{Position}
use citeproc_rs.Names.{
  OneNameVar, NameToken, et_al, ellipsis, ea_use_first, contextual, should_delimit_after,
  count_from, with_delimiters, intercalate, insert_and, all_tokens, name_tokens,
}
use citeproc_rs.Names.Shown.{
  abbreviated, abbreviated-use_first, names_left, names_of, name_tokens-names, length-count_from,
}

abbrev pub is_mark : {T : Type 0} → NameToken T → Bool
is_mark (et_al _) = true
is_mark ellipsis = true
is_mark _ = false

with_delimiters-marks :
    (T : Type 0) (is : List ℕ) → any is_mark (with_delimiters {T = T} is) ≡ false
unfolding with_delimiters
with_delimiters-marks T [] = refl
with_delimiters-marks T (i ∷ is) = with_delimiters-marks T is

intercalate-marks : (T : Type 0) (is : List ℕ) → any is_mark (intercalate {T = T} is) ≡ false
unfolding intercalate
intercalate-marks T [] = refl
intercalate-marks T (i ∷ is) = with_delimiters-marks T is

insert_and-marks :
    {T : Type 0} (keep : Bool) (ts : List (NameToken T))
    → any is_mark (insert_and keep ts) ≡ any is_mark ts
unfolding insert_and
insert_and-marks keep [] = refl
insert_and-marks keep (t ∷ ts) = ground (arith, insert_and-marks keep ts)

all_tokens-marks :
    (T : Type 0) (var : OneNameVar) (n : ℕ) (is_sort_key : Bool)
    → any is_mark (all_tokens {T = T} var n is_sort_key) ≡ false
unfolding all_tokens
all_tokens-marks T var n is_sort_key =
    let keep =
      should_delimit_after (unwrap_or contextual var.name_el.delimiter_precedes_last) var (n - 1) in
    ground (
      arith,
      intercalate-marks T (count_from 0 n),
      insert_and-marks keep (intercalate {T = T} (count_from 0 n)),
    )

-- a cut with fewer names than there are
names_left-fewer : (var : OneNameVar) (k n : ℕ) → k < n → length (names_left var k n) < n
names_left-fewer var k n h =
    ground (arith, h, length-count_from 0 k, length-append (count_from 0 k) ((n - 1) ∷ []))

-- Where the tokens have an "et al" or an ellipsis, a name is left out.
pub name_tokens-marks :
    {T : Type 0} (var : OneNameVar) (pos : Position) (n : ℕ) (is_sort_key : Bool) (term : Option T)
    → any is_mark (name_tokens var pos n is_sort_key term) ≡ true
    → length (names_of (name_tokens var pos n is_sort_key term)) < n
unfolding name_tokens
name_tokens-marks {T} var pos n is_sort_key term h =
    let names = name_tokens-names var pos n is_sort_key term in
    elim (Bool-cases (abbreviated var pos n)) [
      | inl cut ↦
          let left : names_of (name_tokens var pos n is_sort_key term)
              ≡ names_left var (ea_use_first var pos) n =
            ground (arith, names, cut) in
          subst (λ is. length is < n) (sym left)
            (names_left-fewer var (ea_use_first var pos) n (abbreviated-use_first var pos n cut))
      | inr whole ↦ absurd (ground (arith, h, whole, all_tokens-marks T var n is_sort_key))
    ]
