-- ===== src/YearSuffixes/Distinctness.antt =====
-- No group lists a reference twice.
use mathlib.Core.List.{foldl}
use citeproc_rs.Base.{
  ℕ, zero, suc, ◌+◌, List, [], ◌∷◌, none, some, refl, arith, leb, length, Bool-cases, inl, inr, All,
  map,
}
use citeproc_rs.Base.Sets.{contains, insert_in, insert_all, intersection, Distinct}
use citeproc_rs.YearSuffixes.{
  IrDatabase, coalesce_groups, set_at, retain, put_back, round, touches, extend, absorb, Coalesce,
  final_groups,
}
use citeproc_rs.YearSuffixes.Rounds.{contains-intersection}

insert_in-Distinct : (x : ℕ) (s : List ℕ) → Distinct s → Distinct (insert_in x s)
insert_in-Distinct x s d = elim (Bool-cases (contains x s)) [ inl e ↦ rw e d | inr e ↦ rw e (e, d) ]

insert_all-Distinct : (xs s : List ℕ) → Distinct s → Distinct (insert_all xs s)
insert_all-Distinct [] s d = d
insert_all-Distinct (x ∷ xs) s d = insert_all-Distinct xs (insert_in x s) (insert_in-Distinct x s d)

intersection-Distinct : (s t : List ℕ) → Distinct s → Distinct (intersection s t)
intersection-Distinct [] t d = tt
intersection-Distinct (x ∷ xs) t (new, d) = elim (Bool-cases (contains x t)) [
  | inl e ↦ rw e (ground (arith, contains-intersection x xs t, new), intersection-Distinct xs t d)
  | inr e ↦ rw e (intersection-Distinct xs t d)
]

extend-Distinct :
    (ref_id : ℕ) (matching g : List ℕ) → Distinct g → Distinct (extend ref_id matching g)
unfolding extend
extend-Distinct ref_id matching g d =
    insert_all-Distinct matching (insert_in ref_id g) (insert_in-Distinct ref_id g d)

DistinctHeld : Coalesce → Type 0
DistinctHeld none = Unit
DistinctHeld (some (n, g)) = Distinct g

absorb-DistinctHeld :
    (n : ℕ) (g : List ℕ) (c : Coalesce)
    → Distinct g
    → DistinctHeld c
    → DistinctHeld (some (absorb n g c))
unfolding absorb DistinctHeld
absorb-DistinctHeld n g none d e = d
absorb-DistinctHeld n g (some (k, already)) d e = intersection-Distinct already g e

coalesce_groups-Distinct :
    (ref_id : ℕ) (matching : List ℕ) (n : ℕ) (gs : List (List ℕ)) (c : Coalesce)
    → All Distinct gs
    → DistinctHeld c
    → All Distinct (coalesce_groups ref_id matching n gs c).0
      × DistinctHeld (coalesce_groups ref_id matching n gs c).1
unfolding coalesce_groups
coalesce_groups-Distinct ref_id matching n [] c d e = (tt, e)
coalesce_groups-Distinct ref_id matching n (g ∷ gs) c (d, ds) e =
    elim (Bool-cases (touches ref_id matching g)) [
      | inl hit ↦
          let c' = some (absorb n (extend ref_id matching g) c) in
          let held =
            absorb-DistinctHeld n (extend ref_id matching g) c (extend-Distinct ref_id matching g d)
              e in
          let rest = coalesce_groups-Distinct ref_id matching (n + 1) gs c' ds held in
          rw hit ((tt, rest.0), rest.1)
      | inr miss ↦
          let rest = coalesce_groups-Distinct ref_id matching (n + 1) gs c ds e in
          rw miss ((d, rest.0), rest.1)
    ]

set_at-Distinct :
    (gs : List (List ℕ)) (n : ℕ) (g : List ℕ)
    → All Distinct gs
    → Distinct g
    → All Distinct (set_at gs n g)
set_at-Distinct [] n g ds d = tt
set_at-Distinct (h ∷ hs) zero g (d', ds) d = (d, ds)
set_at-Distinct (h ∷ hs) (suc n) g (d', ds) d = (d', set_at-Distinct hs n g ds d)

retain-Distinct : (gs : List (List ℕ)) → All Distinct gs → All Distinct (retain gs)
retain-Distinct [] ds = tt
retain-Distinct ([] ∷ gs) (d, ds) = retain-Distinct gs ds
retain-Distinct ((x ∷ xs) ∷ gs) (d, ds) = (d, retain-Distinct gs ds)

put_back-Distinct :
    (gs : List (List ℕ)) (c : Coalesce)
    → All Distinct gs
    → DistinctHeld c
    → All Distinct (put_back (gs, c))
unfolding put_back DistinctHeld
put_back-Distinct gs none ds e = retain-Distinct gs ds
put_back-Distinct gs (some (n, g)) ds e =
    retain-Distinct (set_at gs n g) (set_at-Distinct gs n g ds e)

round-Distinct :
    (matching : List ℕ) (groups : List (List ℕ)) (ref_id : ℕ)
    → All Distinct groups
    → All Distinct (round matching groups ref_id)
unfolding round DistinctHeld
round-Distinct matching groups ref_id ds =
    let once = coalesce_groups ref_id matching 0 groups none in
    let kept = coalesce_groups-Distinct ref_id matching 0 groups none ds tt in
    elim (Bool-cases (leb (length matching) 1)) [
      | inl e ↦ rw e ds
      | inr e ↦ rw e (put_back-Distinct once.0 once.1 kept.0 kept.1)
    ]

rounds-Distinct :
    (matching : ℕ → List ℕ) (refs : List ℕ) (groups : List (List ℕ))
    → All Distinct groups
    → All Distinct (foldl (λ gs ref_id. round (matching ref_id) gs ref_id) groups refs)
rounds-Distinct matching [] groups ds = ds
rounds-Distinct matching (r ∷ rs) groups ds =
    rounds-Distinct matching rs (round (matching r) groups r)
      (round-Distinct (matching r) groups r ds)

singletons-Distinct : (ids : List ℕ) → All Distinct (map (λ id. id ∷ []) ids)
singletons-Distinct [] = tt
singletons-Distinct (x ∷ xs) = ((refl, tt), singletons-Distinct xs)

pub final_groups-Distinct : (db : IrDatabase) → All Distinct (final_groups db)
unfolding final_groups
final_groups-Distinct db =
    rounds-Distinct db.matching_refs db.sorted_refs (map (λ id. id ∷ []) db.all_keys)
      (singletons-Distinct db.all_keys)
