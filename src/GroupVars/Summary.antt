-- ===== src/GroupVars/Summary.antt =====
-- What the value accumulated over a group's children says about them.
use mathlib.Core.Logic.{∥∥₁_elim}
use mathlib.Core.List.{foldl, Perm, Permᴰ}
use citeproc_rs.Base.{
  Bool, true, false, not, ◌&&◌, ◌||◌, List, [], ◌∷◌, ◌≡◌, ◌≢◌, refl, ◌↔◌, ◌∙◌, ap, arith,
  if◌then◌else◌, any,
}
use citeproc_rs.GroupVars.{
  GroupVars, plain, missing, important, unresolved, unresolved_missing, unresolved_plain, neighbour,
  implicit_conditional, overall,
}

-- Signs of neighbours: each value records which of three things were seen.
abbrev pub is_important : GroupVars → Bool
is_important important = true
is_important _ = false

abbrev pub saw_missing : GroupVars → Bool
saw_missing missing = true
saw_missing unresolved_missing = true
saw_missing _ = false

abbrev pub saw_unresolved : GroupVars → Bool
saw_unresolved unresolved = true
saw_unresolved unresolved_missing = true
saw_unresolved unresolved_plain = true
saw_unresolved _ = false

-- The verdict on a group from the three questions, asked of all its children.
abbrev pub verdict : Bool → Bool → Bool → GroupVars
verdict i m u =
    if i
    then important
    else if m
    then (if u then unresolved_missing else missing)
    else if u
    then unresolved_plain
    else plain

-- `neighbour` is commutative, associative and idempotent: a join of two values.
neighbour-IsJoin :
    (a b c : GroupVars)
    → (neighbour a b ≡ neighbour b a)
      × (neighbour (neighbour a b) c ≡ neighbour a (neighbour b c))
      × (neighbour a a ≡ a)
unfolding neighbour
neighbour-IsJoin a b c = ground arith

neighbour_verdict :
    (a b : GroupVars)
    → (is_important (neighbour a b) ≡ (is_important a || is_important b))
      × (is_important a ≡ false
          → is_important b ≡ false
          → (saw_missing (neighbour a b) ≡ (saw_missing a || saw_missing b))
            × (saw_unresolved (neighbour a b) ≡ (saw_unresolved a || saw_unresolved b)))
unfolding neighbour
neighbour_verdict a b = ground arith

-- the questions, asked of a running value and of the children that are left
abbrev verdict_from : GroupVars → List GroupVars → GroupVars
verdict_from gv gvs =
    verdict (is_important gv || any is_important gvs) (saw_missing gv || any saw_missing gvs)
      (saw_unresolved gv || any saw_unresolved gvs)

neighbour-ne-unresolved : (a b : GroupVars) → a ≢ unresolved → neighbour a b ≢ unresolved
unfolding neighbour
neighbour-ne-unresolved a b h = ground arith

foldl-verdict :
    (gv : GroupVars) (gvs : List GroupVars)
    → gv ≢ unresolved
    → foldl neighbour gv gvs ≡ verdict_from gv gvs
foldl-verdict gv [] h = ground arith
foldl-verdict gv (x ∷ gvs) h = ground (
  arith,
  neighbour_verdict gv x,
  neighbour-ne-unresolved gv x h,
  foldl-verdict (neighbour gv x) gvs,
)

-- The value of a group is decided by three questions about its children: whether one is
-- important, whether one is missing or unresolved-missing, and whether one is unresolved in any way.
pub overall-verdict :
    (gvs : List GroupVars)
    → overall gvs ≡ verdict (any is_important gvs) (any saw_missing gvs) (any saw_unresolved gvs)
unfolding overall
overall-verdict gvs = foldl-verdict plain gvs (λ e. cc)

module _ (p : GroupVars → Bool) where
  any-permᴰ : {gvs hvs : List GroupVars} → Permᴰ gvs hvs → any p gvs ≡ any p hvs
  any-permᴰ Permᴰ.nil = refl
  any-permᴰ (Permᴰ.cons e q) = ground (arith, ap p e, any-permᴰ q)
  any-permᴰ (Permᴰ.swap e f) = ground (arith, ap p e, ap p f)
  any-permᴰ (Permᴰ.trans q r) = any-permᴰ q ∙ any-permᴰ r

GroupVars-set : IsSet GroupVars
GroupVars-set = hlevel

-- The order of a group's children does not change the group's value.
overall-perm : (gvs hvs : List GroupVars) → Perm gvs hvs → overall gvs ≡ overall hvs
overall-perm gvs hvs p = ∥∥₁_elim p (GroupVars-set _ _) λ q.
    simp overall-verdict
      (cc (any-permᴰ is_important q, any-permᴰ saw_missing q, any-permᴰ saw_unresolved q))

-- the children that suppress their group: one was missing, none is important or may still change
abbrev pub suppresses : List GroupVars → Bool
suppresses gvs = any saw_missing gvs && not (any is_important gvs) && not (any saw_unresolved gvs)

module _ {ℓ} {T : Type ℓ} (default : T) (eq : T → T → Bool) where
  -- The rule of cs:group: output that is not empty is dropped exactly when some child is missing,
  -- none is important and none is unresolved; a group that is kept never counts as plain.
  implicit_conditional-overall :
      (gvs : List GroupVars) (ir : T)
      → eq ir default ≡ false
      → ((implicit_conditional default eq (overall gvs) ir).0
          ≡ (if suppresses gvs then default else ir))
        × (((implicit_conditional default eq (overall gvs) ir).1 ≡ missing)
            ↔ (suppresses gvs ≡ true))
        × ((implicit_conditional default eq (overall gvs) ir).1 ≢ plain)
  unfolding implicit_conditional
  implicit_conditional-overall gvs ir h = rw overall-verdict (ground arith)
