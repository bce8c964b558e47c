-- ===== src/Choose/Branches.antt =====
-- The branch that `<choose>` takes, for a cite and for a reference.
use citeproc_rs.Base.{
  ℕ, ◌+◌, ◌%◌, ◌^◌, Bool, false, ◌||◌, List, [], ◌∷◌, Option, none, some, ◌≡◌, refl, ap, ◌∙◌, arith,
  any, map, if◌then◌else◌, Bool-cases, inl, inr, sym,
}
use citeproc_rs.Choose.{
  Cond, CondSet, Conditions, CondChecker, test_cond, answers, eval_condset, eval_conditions,
  is_disambiguate_cond, names_disambiguate, run_matcher, choose_ref, choose_cite, eval_ifthen_ref,
}

test_cond-count :
    (ck : CondChecker) (i j : ℕ) (c : Cond)
    → is_disambiguate_cond c ≡ false
    → test_cond ck i c ≡ test_cond ck j c
unfolding test_cond is_disambiguate_cond
test_cond-count ck i j c h = ground arith

answers-count :
    (ck : CondChecker) (i j : ℕ) (cs : List Cond)
    → any is_disambiguate_cond cs ≡ false
    → answers ck i cs ≡ answers ck j cs
unfolding answers
answers-count ck i j [] h = refl
answers-count ck i j (c ∷ cs) h = ground (arith, test_cond-count ck i j c, answers-count ck i j cs)

map-eval_condset-count :
    (ck : CondChecker) (i j : ℕ) (sets : List CondSet)
    → any names_disambiguate sets ≡ false
    → map (eval_condset ck i) sets ≡ map (eval_condset ck j) sets
unfolding eval_condset names_disambiguate
map-eval_condset-count ck i j [] h = refl
map-eval_condset-count ck i j (s ∷ ss) h =
    let first = answers-count ck i j s.conds (ground arith) in
    let rest = map-eval_condset-count ck i j ss (ground arith) in
    ap (λ bs. run_matcher bs s.match_type ∷ map (eval_condset ck i) ss) first
    ∙ ap (λ bs. eval_condset ck j s ∷ bs) rest

-- Conditions that do not name `disambiguate` give the same result at any count.
pub eval_conditions-count :
    (ck : CondChecker) (i j : ℕ) (cs : Conditions)
    → (eval_conditions ck i cs).1 ≡ false
    → eval_conditions ck i cs ≡ eval_conditions ck j cs
unfolding eval_conditions
eval_conditions-count ck i j cs h =
    ap (λ bs. (run_matcher bs cs.match_type, any names_disambiguate cs.sets))
      (map-eval_condset-count ck i j cs.sets h)

module _ {ℓ} {E : Type ℓ} where
  -- whether a branch names `disambiguate`, at any count
  abbrev pub branch_disambiguates : CondChecker → Conditions × E → Bool
  branch_disambiguates ck b = (eval_conditions ck 0 b.0).1

  -- the branches up to and with the first that matches at count 0
  abbrev pub tried : CondChecker → List (Conditions × E) → List (Conditions × E)
  tried ck [] = []
  tried ck (b ∷ bs) =
      let rest = tried ck bs in if (eval_conditions ck 0 b.0).0 then b ∷ [] else b ∷ rest

  -- the elements of the first branch that matches at count 0
  abbrev pub first_matching : CondChecker → List (Conditions × E) → E → E
  first_matching ck [] last = last
  first_matching ck (b ∷ bs) last =
      let rest = first_matching ck bs last in if (eval_conditions ck 0 b.0).0 then b.1 else rest

  choose_cite_from :
      (ck : CondChecker) (bs : List (Conditions × E)) (last : E) (disamb : Bool)
      → choose_cite ck bs last disamb
        ≡ (first_matching ck bs last, disamb || any (branch_disambiguates ck) (tried ck bs))
  unfolding choose_cite
  choose_cite_from ck [] last disamb = ground arith
  choose_cite_from ck (b ∷ bs) last disamb = elim (Bool-cases (eval_conditions ck 0 b.0).0) [
    | inl e ↦ rw e (ground arith)
    | inr e ↦
        rw e (choose_cite_from ck bs last (disamb || (eval_conditions ck 0 b.0).1) ∙ ground arith)
  ]

  -- A cite takes the first branch that matches, or else the last, and it is left unresolved exactly
  -- when a branch that was tried, up to the one taken, names `disambiguate`.
  choose_cite_lem :
      (ck : CondChecker) (bs : List (Conditions × E)) (last : E)
      → choose_cite ck bs last false
        ≡ (first_matching ck bs last, any (branch_disambiguates ck) (tried ck bs))
  choose_cite_lem ck bs last = choose_cite_from ck bs last false

  any-tried :
      (ck : CondChecker) (bs : List (Conditions × E))
      → any (branch_disambiguates ck) bs ≡ false
      → any (branch_disambiguates ck) (tried ck bs) ≡ false
  any-tried ck [] h = refl
  any-tried ck (b ∷ bs) h = ground (arith, any-tried ck bs)

  abbrev taken : Option E × ℕ → (ℕ → E × ℕ) → E × ℕ
  taken (some els, n) next = (els, n)
  taken (none, n) next = next n

  choose_ref-taken :
      (ck : CondChecker) (b : Conditions × E) (bs : List (Conditions × E)) (last : E) (count : ℕ)
      → choose_ref ck (b ∷ bs) last count
        ≡ taken (eval_ifthen_ref ck b count) (choose_ref ck bs last)
  unfolding choose_ref
  choose_ref-taken ck b bs last count =
      let n = (eval_ifthen_ref ck b count).1 in
      elim (eval_ifthen_ref ck b count).0
        as (λ o.
          elim o as (λ _. E × ℕ) [ some els ↦ (els, n) | none ↦ choose_ref ck bs last n ]
          ≡ taken (o, n) (choose_ref ck bs last)) [ some els ↦ refl | none ↦ refl ]

  eval_ifthen_ref-plain :
      (ck : CondChecker) (b : Conditions × E) (count : ℕ) (m : Bool)
      → eval_conditions ck count b.0 ≡ (m, false)
      → eval_ifthen_ref ck b count ≡ ((if m then some b.1 else none), count)
  unfolding eval_ifthen_ref
  eval_ifthen_ref-plain ck b count m h =
      ap (λ r. ((if r.0 then some b.1 else none), (if r.1 then (count + 1) % 2 ^ 32 else count))) h

  choose_ref-first_matching :
      (ck : CondChecker) (bs : List (Conditions × E)) (last : E) (count : ℕ)
      → any (branch_disambiguates ck) bs ≡ false
      → choose_ref ck bs last count ≡ (first_matching ck bs last, count)
  choose_ref-first_matching ck [] last count h = unfold choose_ref in refl
  choose_ref-first_matching ck (b ∷ bs) last count h =
      let here : (eval_conditions ck 0 b.0).1 ≡ false = ground arith in
      let same = eval_conditions-count ck 0 count b.0 here in
      let matched = (eval_conditions ck 0 b.0).0 in
      let result : eval_conditions ck count b.0 ≡ (matched, false) =
        sym same ∙ ap (λ d. (matched, d)) here in
      let rest = choose_ref-first_matching ck bs last count (ground arith) in
      let step =
        choose_ref-taken ck b bs last count
        ∙ ap (λ r. taken r (choose_ref ck bs last))
            (eval_ifthen_ref-plain ck b count matched result) in
      elim (Bool-cases matched) [ inl e ↦ step ∙ rw e refl | inr e ↦ step ∙ rw e rest ]

  -- By the answers of one checker, where no branch names `disambiguate`, a reference takes the same
  -- branch as a cite whatever its count, the count stays, and the cite is resolved.
  pub choose_ref-choose_cite :
      (ck : CondChecker) (bs : List (Conditions × E)) (last : E) (count : ℕ)
      → any (branch_disambiguates ck) bs ≡ false
      → (choose_ref ck bs last count ≡ ((choose_cite ck bs last false).0, count))
        × ((choose_cite ck bs last false).1 ≡ false)
  choose_ref-choose_cite ck bs last count h =
      let cite = choose_cite_lem ck bs last in
      (
        choose_ref-first_matching ck bs last count h ∙ ap (λ r. (r.0, count)) (sym cite),
        ap (λ r. r.1) cite ∙ any-tried ck bs h,
      )
