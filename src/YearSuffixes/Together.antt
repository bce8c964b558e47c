-- ===== src/YearSuffixes/Together.antt =====
-- What a round puts together, and what it loses.
use citeproc_rs.Base.{
  ℕ, zero, suc, ◌+◌, Bool, true, false, ◌&&◌, List, [], ◌∷◌, none, some, ◌≡◌, refl, arith, length,
  any, all, if◌then◌else◌, ◌∙◌, Bool-cases, ap, ◌<◌, inr, inl,
}
use citeproc_rs.Base.Sets.{contains, intersection}
use citeproc_rs.YearSuffixes.{
  coalesce_groups, set_at, retain, put_back, round, touches, extend, absorb, Coalesce,
}
use citeproc_rs.YearSuffixes.Rounds.{contains-intersection, contains-extend, named, count}

-- a group that has the references of a round
abbrev pub holds : ℕ → List ℕ → List ℕ → Bool
holds ref_id matching g = contains ref_id g && all (λ m. contains m g) matching

all-contains :
    (s t : List ℕ)
    → ((x : ℕ) → contains x t ≡ true → contains x s ≡ true)
    → all (λ m. contains m s) t ≡ true
all-contains s [] h = refl
all-contains s (y ∷ ys) h =
    let here : contains y s ≡ true = h y (ground arith) in
    let rest = all-contains s ys (λ x i. h x (ground (arith, i))) in ground (arith, here, rest)

all-intersection :
    (s t ms : List ℕ)
    → all (λ m. contains m (intersection s t)) ms
      ≡ (all (λ m. contains m s) ms && all (λ m. contains m t) ms)
all-intersection s t [] = refl
all-intersection s t (m ∷ ms) = ground (arith, contains-intersection m s t, all-intersection s t ms)

holds-intersection :
    (ref_id : ℕ) (matching s t : List ℕ)
    → holds ref_id matching s ≡ true
    → holds ref_id matching t ≡ true
    → holds ref_id matching (intersection s t) ≡ true
holds-intersection ref_id matching s t h k =
    ground (arith, contains-intersection ref_id s t, all-intersection s t matching)

holds-extend :
    (ref_id : ℕ) (matching g : List ℕ) → holds ref_id matching (extend ref_id matching g) ≡ true
holds-extend ref_id matching g =
    let own = contains-extend ref_id ref_id matching g in
    let others =
      all-contains (extend ref_id matching g) matching
        (λ x i. contains-extend x ref_id matching g ∙ ground (arith, i)) in
    ground (arith, own, others)

-- what is put together from a group on, where one is held already
coalesce_groups-keeps :
    (ref_id : ℕ) (matching : List ℕ) (n : ℕ) (gs : List (List ℕ)) (k : ℕ) (s : List ℕ)
    → holds ref_id matching s ≡ true
    → (s' : List ℕ) × ((coalesce_groups ref_id matching n gs (some (k, s))).1 ≡ some (k, s'))
      × (holds ref_id matching s' ≡ true)
unfolding coalesce_groups absorb
coalesce_groups-keeps ref_id matching n [] k s h = (s, refl, h)
coalesce_groups-keeps ref_id matching n (g ∷ gs) k s h =
    elim (Bool-cases (touches ref_id matching g)) [
      | inr miss ↦ rw miss (coalesce_groups-keeps ref_id matching (n + 1) gs k s h)
      | inl hit ↦
          let t = extend ref_id matching g in
          let both = holds-intersection ref_id matching s t h (holds-extend ref_id matching g) in
          rw hit (coalesce_groups-keeps ref_id matching (n + 1) gs k (intersection s t) both)
    ]

coalesce_groups-finds :
    (ref_id : ℕ) (matching : List ℕ) (n : ℕ) (gs : List (List ℕ))
    → any (touches ref_id matching) gs ≡ true
    → (k : ℕ) × (s : List ℕ) × ((coalesce_groups ref_id matching n gs none).1 ≡ some (n + k, s))
      × (k < length gs)
      × (holds ref_id matching s ≡ true)
unfolding coalesce_groups absorb
coalesce_groups-finds ref_id matching n [] h = cc
coalesce_groups-finds ref_id matching n (g ∷ gs) h = elim (Bool-cases (touches ref_id matching g)) [
  | inl hit ↦
      let own = holds-extend ref_id matching g in
      let (s, e, is_held) =
        coalesce_groups-keeps ref_id matching (n + 1) gs n (extend ref_id matching g) own in
      (0, s, rw hit (ground (arith, e)), omega arith, is_held)
  | inr miss ↦
      let later : any (touches ref_id matching) gs ≡ true = rw miss at h in
      let (k, s, e, in_range, is_held) = coalesce_groups-finds ref_id matching (n + 1) gs later in
      (k + 1, s, rw miss (ground (arith, e)), omega (arith, in_range), is_held)
]

length-coalesce_groups :
    (ref_id : ℕ) (matching : List ℕ) (n : ℕ) (gs : List (List ℕ)) (c : Coalesce)
    → length (coalesce_groups ref_id matching n gs c).0 ≡ length gs
unfolding coalesce_groups
length-coalesce_groups ref_id matching n [] c = refl
length-coalesce_groups ref_id matching n (g ∷ gs) c = ap suc (
    length-coalesce_groups ref_id matching (n + 1) gs
      (if touches ref_id matching g then some (absorb n (extend ref_id matching g) c) else c))

any-retain :
    (ref_id : ℕ) (matching : List ℕ) (gs : List (List ℕ)) (k : ℕ) (g : List ℕ)
    → k < length gs
    → holds ref_id matching g ≡ true
    → any (holds ref_id matching) (retain (set_at gs k g)) ≡ true
any-retain ref_id matching [] k g i h = ground (arith, i)
any-retain ref_id matching (f ∷ fs) zero [] i h = ground (arith, h)
any-retain ref_id matching (f ∷ fs) zero (x ∷ xs) i h = rw h refl
any-retain ref_id matching (f ∷ fs) (suc k) g i h =
    ground (arith, any-retain ref_id matching fs k g (omega (arith, i)) h)

-- After the round of an ambiguous reference that some group meets, one group has the reference and
-- every reference that its cite matches.
pub round-holds :
    (matching : List ℕ) (groups : List (List ℕ)) (ref_id : ℕ)
    → 1 < length matching
    → any (touches ref_id matching) groups ≡ true
    → any (holds ref_id matching) (round matching groups ref_id) ≡ true
unfolding round put_back
round-holds matching groups ref_id many met =
    let (k, s, e, in_range, is_held) = coalesce_groups-finds ref_id matching 0 groups met in
    let gs = (coalesce_groups ref_id matching 0 groups none).0 in
    let in_range' : k < length gs =
      omega (arith, in_range, length-coalesce_groups ref_id matching 0 groups none) in
    let found = any-retain ref_id matching gs k s in_range' is_held in ground (arith, e, found)

-- The groups that a round puts together are not united but intersected: a reference of the first
-- that neither the round nor the second group names is in no group afterwards.
pub round_lost :
    (matching first second : List ℕ) (ref_id x : ℕ)
    → 1 < length matching
    → touches ref_id matching first ≡ true
    → touches ref_id matching second ≡ true
    → named ref_id matching x ≡ false
    → contains x first ≡ true
    → contains x second ≡ false
    → (count x (first ∷ second ∷ []) ≡ 1)
      × (count x (round matching (first ∷ second ∷ []) ref_id) ≡ 0)
unfolding round put_back coalesce_groups absorb
round_lost matching first second ref_id x many t1 t2 out here gone =
    let s = extend ref_id matching first in
    let t = extend ref_id matching second in
    let left : contains x (intersection s t) ≡ false =
      ground (arith, contains-intersection x s t, contains-extend x ref_id matching second) in
    (ground arith, rw (t1, t2) (ground (arith, left)))
