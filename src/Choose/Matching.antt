-- ===== src/Choose/Matching.antt =====
-- How the answers of conditions are put together.
use mathlib.Core.Logic.{∥∥₁_elim}
use mathlib.Core.List.{Perm, Permᴰ}
use citeproc_rs.Base.{
  ℕ, Bool, true, false, not, ◌||◌, List, [], ◌∷◌, ◌++◌, none, ◌≡◌, refl, ap, ◌∙◌, arith, any, sym,
}
use citeproc_rs.Choose.{
  Match, match_any, match_all, match_none, match_nand, Cond, CondSet, CondChecker, run_matcher,
  test_cond, answers, eval_condset, has_year_only, has_month_or_season, has_day, context, is_plural,
  jurisdiction, sub_jurisdiction,
}

abbrev pub complement : Match → Match
complement match_any = match_none
complement match_none = match_any
complement match_all = match_nand
complement match_nand = match_all

run_matcher-complement :
    (bools : List Bool) (m : Match) → run_matcher bools (complement m) ≡ not (run_matcher bools m)
unfolding run_matcher
run_matcher-complement [] m = ground arith
run_matcher-complement (b ∷ bs) m = ground (arith, run_matcher-complement bs m)

answers-append :
    (ck : CondChecker) (count : ℕ) (xs ys : List Cond)
    → answers ck count (xs ++ ys) ≡ answers ck count xs ++ answers ck count ys
unfolding answers
answers-append ck count [] ys = refl
answers-append ck count (x ∷ xs) ys = ground (arith, answers-append ck count xs ys)

abbrev pub with_conds : CondSet → List Cond → CondSet
with_conds set conds = record set { conds = conds }

abbrev pub passed_over : CondChecker → Cond → Bool
passed_over ck (context _) = true
passed_over ck (is_plural _) = true
passed_over ck (jurisdiction _) = true
passed_over ck (sub_jurisdiction _) = true
passed_over ck (has_year_only _) = not ck.condition_date_parts
passed_over ck (has_month_or_season _) = not ck.condition_date_parts
passed_over ck (has_day _) = not ck.condition_date_parts
passed_over ck _ = false

test_cond-none :
    (ck : CondChecker) (count : ℕ) (c : Cond)
    → passed_over ck c ≡ true
    → test_cond ck count c ≡ none
unfolding test_cond
test_cond-none ck count c h = ground arith

-- A condition that is not implemented, or one on date parts where that feature is off, changes no
-- answer of the conditions it stands among, whatever the kind of match.
eval_condset-passed_over :
    (ck : CondChecker) (count : ℕ) (set : CondSet) (xs ys : List Cond) (c : Cond)
    → passed_over ck c ≡ true
    → eval_condset ck count (with_conds set (xs ++ (c ∷ ys)))
      ≡ eval_condset ck count (with_conds set (xs ++ ys))
unfolding eval_condset answers
eval_condset-passed_over ck count set xs ys c h =
    let e = test_cond-none ck count c h in
    let dropped : answers ck count (c ∷ ys) ≡ answers ck count ys = ground (arith, e) in
    ap (λ bs. run_matcher bs set.match_type)
      (answers-append ck count xs (c ∷ ys)
        ∙ (ap (λ bs. answers ck count xs ++ bs) dropped ∙ sym (answers-append ck count xs ys)))

module _ (ck : CondChecker) (count : ℕ) (p : Bool → Bool) where
  any_of : List Cond → Bool
  any_of conds = any p (answers ck count conds)

  any_of-cons : (c : Cond) (cs : List Cond) → any_of (c ∷ cs) ≡ (any_of (c ∷ []) || any_of cs)
  unfolding any_of answers
  any_of-cons c cs = ground arith

  any_of-same :
      (a b : Cond) (xs ys : List Cond)
      → a ≡ b
      → any_of xs ≡ any_of ys
      → any_of (a ∷ xs) ≡ any_of (b ∷ ys)
  any_of-same a b xs ys e h =
      let one = ap (λ c. any_of (c ∷ [])) e in
      ground (arith, one, any_of-cons a xs, any_of-cons b ys)

  any_of-swapped :
      (a b c d : Cond) (l : List Cond) → a ≡ d → b ≡ c → any_of (a ∷ b ∷ l) ≡ any_of (c ∷ d ∷ l)
  any_of-swapped a b c d l e f =
      let one = ap (λ c. any_of (c ∷ [])) e in
      let two = ap (λ c. any_of (c ∷ [])) f in
      ground (
        arith,
        one,
        two,
        any_of-cons a (b ∷ l),
        any_of-cons b l,
        any_of-cons c (d ∷ l),
        any_of-cons d l,
      )

  any_of-permᴰ : {xs ys : List Cond} → Permᴰ xs ys → any_of xs ≡ any_of ys
  any_of-permᴰ Permᴰ.nil = refl
  any_of-permᴰ (Permᴰ.cons e q) = any_of-same _ _ _ _ e (any_of-permᴰ q)
  any_of-permᴰ (Permᴰ.swap e f) = any_of-swapped _ _ _ _ _ e f
  any_of-permᴰ (Permᴰ.trans q r) = any_of-permᴰ q ∙ any_of-permᴰ r

module _ (ck : CondChecker) (count : ℕ) where
  eval-permᴰ :
      {xs ys : List Cond} (set : CondSet)
      → Permᴰ xs ys
      → eval_condset ck count (with_conds set xs) ≡ eval_condset ck count (with_conds set ys)
  unfolding eval_condset run_matcher any_of
  eval-permᴰ {xs = xs} {ys = ys} set q =
      elim set.match_type
        as (λ m. run_matcher (answers ck count xs) m ≡ run_matcher (answers ck count ys) m) [
          | match_any ↦ any_of-permᴰ ck count (λ b. b) q
          | match_nand ↦ any_of-permᴰ ck count not q
          | match_all ↦
              run_matcher-complement (answers ck count xs) match_nand
              ∙ (ap not (any_of-permᴰ ck count not q)
                  ∙ sym (run_matcher-complement (answers ck count ys) match_nand))
          | match_none ↦
              run_matcher-complement (answers ck count xs) match_any
              ∙ (ap not (any_of-permᴰ ck count (λ b. b) q)
                  ∙ sym (run_matcher-complement (answers ck count ys) match_any))
        ]

Bool-set : IsSet Bool
Bool-set = hlevel

-- The conditions of a set may be tried in any order: the answer is the same.
eval_condset-perm :
    (ck : CondChecker) (count : ℕ) (set : CondSet) (xs ys : List Cond)
    → Perm xs ys
    → eval_condset ck count (with_conds set xs) ≡ eval_condset ck count (with_conds set ys)
eval_condset-perm ck count set xs ys p = ∥∥₁_elim p (Bool-set _ _) λ q. eval-permᴰ ck count set q
