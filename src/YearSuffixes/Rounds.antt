-- ===== src/YearSuffixes/Rounds.antt =====
-- The groups after one round.
use citeproc_rs.Base.{
  ℕ, zero, suc, ◌+◌, ◌≤◌, Bool, true, false, ◌&&◌, ◌||◌, List, [], ◌∷◌, none, some, ◌≡◌, refl,
  arith, any, ◌==◌, if◌then◌else◌, Bool-cases, inl, inr, map,
}
use citeproc_rs.Base.Sets.{contains, insert_in, insert_all, intersection, Distinct}
use citeproc_rs.YearSuffixes.{
  coalesce_groups, set_at, retain, put_back, round, touches, extend, absorb, Coalesce, intersects,
  final_groups, foldl, IrDatabase,
}

abbrev pub one_if : Bool → ℕ
one_if true = 1
one_if false = 0

-- how many of the groups a reference is in
abbrev pub count : ℕ → List (List ℕ) → ℕ
count x [] = 0
count x (g ∷ gs) = one_if (contains x g) + count x gs

count-retain : (x : ℕ) (gs : List (List ℕ)) → count x (retain gs) ≡ count x gs
count-retain x [] = refl
count-retain x ([] ∷ gs) = omega (arith, count-retain x gs)
count-retain x ((y ∷ ys) ∷ gs) = ground (arith, count-retain x gs)

count-set_at :
    (x : ℕ) (gs : List (List ℕ)) (n : ℕ) (g : List ℕ)
    → count x (set_at gs n g) ≤ count x gs + one_if (contains x g)
count-set_at x [] n g = ground arith
count-set_at x (h ∷ hs) zero g = ground arith
count-set_at x (h ∷ hs) (suc n) g = ground (arith, count-set_at x hs n g)

pub contains-insert_all :
    (x : ℕ) (xs s : List ℕ) → contains x (insert_all xs s) ≡ (contains x xs || contains x s)
contains-insert_all x [] s = refl
contains-insert_all x (y ∷ ys) s = ground (arith, contains-insert_all x ys (insert_in y s))

pub contains-intersection :
    (x : ℕ) (s t : List ℕ) → contains x (intersection s t) ≡ (contains x s && contains x t)
contains-intersection x [] t = refl
contains-intersection x (y ∷ ys) t = ground (arith, contains-intersection x ys t)

pub contains-insert_in :
    (x y : ℕ) (s : List ℕ) → contains x (insert_in y s) ≡ ((y == x) || contains x s)
contains-insert_in x y s = ground arith

-- Walking through either side finds a number that both have.
any-contains :
    (x : ℕ) (s t : List ℕ)
    → any (λ v. contains v t) s ≡ false
    → contains x s ≡ true
    → contains x t ≡ false
any-contains x [] t none_in here = ground arith
any-contains x (y ∷ ys) t none_in here = ground (arith, any-contains x ys t)

intersects-contains :
    (x : ℕ) (s t : List ℕ) → intersects s t ≡ false → (contains x s && contains x t) ≡ false
unfolding intersects
intersects-contains x s t h = ground (arith, any-contains x s t, any-contains x t s)

-- how many of the groups that are put together hold a reference
abbrev held : ℕ → Coalesce → ℕ
held x none = 0
held x (some (n, g)) = one_if (contains x g)

-- the references of the round
abbrev pub named : ℕ → List ℕ → ℕ → Bool
named ref_id matching x = (ref_id == x) || contains x matching

pub contains-extend :
    (x ref_id : ℕ) (matching g : List ℕ)
    → contains x (extend ref_id matching g) ≡ (named ref_id matching x || contains x g)
unfolding extend
contains-extend x ref_id matching g =
    ground
      (arith, contains-insert_all x matching (insert_in ref_id g), contains-insert_in x ref_id g)

untouched-named :
    (x ref_id : ℕ) (matching g : List ℕ)
    → touches ref_id matching g ≡ false
    → named ref_id matching x ≡ true
    → contains x g ≡ false
unfolding touches
untouched-named x ref_id matching g h n = ground (arith, intersects-contains x g matching)

held-absorb :
    (x n ref_id : ℕ) (matching g : List ℕ) (c : Coalesce)
    → named ref_id matching x ≡ false
    → held x (some (absorb n (extend ref_id matching g) c)) ≤ one_if (contains x g) + held x c
unfolding absorb
held-absorb x n ref_id matching g none out = ground (arith, contains-extend x ref_id matching g)
held-absorb x n ref_id matching g (some (k, already)) out = ground (
  arith,
  contains-extend x ref_id matching g,
  contains-intersection x already (extend ref_id matching g),
)

count-coalesce_groups-named :
    (x ref_id : ℕ) (matching : List ℕ) (n : ℕ) (gs : List (List ℕ)) (c : Coalesce)
    → named ref_id matching x ≡ true
    → count x (coalesce_groups ref_id matching n gs c).0 ≡ 0
unfolding coalesce_groups
count-coalesce_groups-named x ref_id matching n [] c is_named = refl
count-coalesce_groups-named x ref_id matching n (g ∷ gs) c is_named = ground (
  arith,
  untouched-named x ref_id matching g,
  count-coalesce_groups-named x ref_id matching (n + 1) gs
      (if touches ref_id matching g then some (absorb n (extend ref_id matching g) c) else c),
)

count-coalesce_groups :
    (x ref_id : ℕ) (matching : List ℕ) (n : ℕ) (gs : List (List ℕ)) (c : Coalesce)
    → named ref_id matching x ≡ false
    → count x (coalesce_groups ref_id matching n gs c).0
        + held x (coalesce_groups ref_id matching n gs c).1
      ≤ count x gs + held x c
unfolding coalesce_groups
count-coalesce_groups x ref_id matching n [] c out = omega arith
count-coalesce_groups x ref_id matching n (g ∷ gs) c out =
    elim (Bool-cases (touches ref_id matching g)) [
      | inl hit ↦
          let c' = some (absorb n (extend ref_id matching g) c) in
          rw hit (
            omega (
              arith,
              held-absorb x n ref_id matching g c out,
              count-coalesce_groups x ref_id matching (n + 1) gs c' out,
            ))
      | inr miss ↦ rw miss (omega (arith, count-coalesce_groups x ref_id matching (n + 1) gs c out))
    ]

count-put_back :
    (x : ℕ) (gs : List (List ℕ)) (c : Coalesce) → count x (put_back (gs, c)) ≤ count x gs + held x c
unfolding put_back
count-put_back x gs none = omega (arith, count-retain x gs)
count-put_back x gs (some (n, g)) =
    omega (arith, count-retain x (set_at gs n g), count-set_at x gs n g)

-- A reference that is in at most one group is still in at most one after a round.
pub count-round :
    (matching : List ℕ) (groups : List (List ℕ)) (ref_id x : ℕ)
    → count x groups ≤ 1
    → count x (round matching groups ref_id) ≤ 1
unfolding round
count-round matching groups ref_id x apart =
    let once = coalesce_groups ref_id matching 0 groups none in
    let back = count-put_back x once.0 once.1 in
    elim (Bool-cases (named ref_id matching x)) [
      | inl e ↦ ground (arith, back, count-coalesce_groups-named x ref_id matching 0 groups none e)
      | inr e ↦ ground (arith, back, count-coalesce_groups x ref_id matching 0 groups none e)
    ]

count-singletons :
    (x : ℕ) (ids : List ℕ)
    → Distinct ids
    → count x (map (λ id. id ∷ []) ids) ≡ one_if (contains x ids)
count-singletons x [] d = refl
count-singletons x (y ∷ ys) (new, d) = ground (arith, count-singletons x ys d, new)

count-rounds :
    (matching : ℕ → List ℕ) (x : ℕ) (refs : List ℕ) (groups : List (List ℕ))
    → count x groups ≤ 1
    → count x (foldl (λ gs ref_id. round (matching ref_id) gs ref_id) groups refs) ≤ 1
count-rounds matching x [] groups apart = apart
count-rounds matching x (r ∷ rs) groups apart =
    count-rounds matching x rs (round (matching r) groups r)
      (count-round (matching r) groups r x apart)

-- With every key listed once, no reference ends in two of the groups that are given suffixes.
pub final_groups-apart :
    (db : IrDatabase) (x : ℕ) → Distinct db.all_keys → count x (final_groups db) ≤ 1
unfolding final_groups
final_groups-apart db x d =
    count-rounds db.matching_refs x db.sorted_refs (map (λ id. id ∷ []) db.all_keys)
      (ground (arith, count-singletons x db.all_keys d))
