-- ===== src/Processor/Sync.antt =====
-- A client of the processor that keeps the outputs by the updates it is given.
use citeproc_rs.Base.{
  refl, arith, ℕ, Option, some, List, ◌≡◌, [], none, sym, ◌∷◌, arith, ◌∙◌, Bool-cases, ap, inl, inr,
}
use citeproc_rs.Base.Map.{Map, insert}
use citeproc_rs.Base.Texts.{Text, same_text, same_text_refl, same_text_sound}
use citeproc_rs.CitePositions.{ClusterData}
use citeproc_rs.Processor.Updates.{Entries, entry_diff, upsert_diff, keep_diff, diff_clusters}

-- the client writes the entries of an update over its own
unfoldable pub apply_entries : Entries → Map Text → Map Text
apply_entries [] m = m
apply_entries ((k, v) ∷ es) m = apply_entries es (insert k v m)

-- the outputs are those of the map, for all clusters of the list
unfoldable pub Shows : (ℕ → Text) → List ClusterData → Map Text → Type 0
Shows built [] m = Unit
Shows built (c ∷ cs) m = (m c.id ≡ some (built c.id)) × Shows built cs m

pub apply_entries-ext :
    (es : Entries) (m n : Map Text)
    → ((k : ℕ) → m k ≡ n k)
    → (k : ℕ) → apply_entries es m k ≡ apply_entries es n k
unfolding apply_entries
apply_entries-ext [] m n h k = h k
apply_entries-ext ((j, v) ∷ es) m n h k =
    apply_entries-ext es (insert j v m) (insert j v n) (λ i. ground (arith, h i)) k

-- an entry that is left out was there already
entry_diff-none :
    (id : ℕ) (built : Text) (old : Option Text) → entry_diff id built old ≡ none → old ≡ some built
unfolding entry_diff
entry_diff-none id built none h = cc
entry_diff-none id built (some v) h = elim (Bool-cases (same_text built v)) [
  | inl same ↦ ap some (sym (same_text_sound built v same))
  | inr other ↦ absurd (ground (arith, h, other))
]

entry_diff-some :
    (id : ℕ) (built : Text) (old : Option Text) (d : ℕ × Text)
    → entry_diff id built old ≡ some d
    → d ≡ (id, built)
unfolding entry_diff
entry_diff-some id built none d h = cc h
entry_diff-some id built (some v) d h = ground (arith, h)

entry_diff-same : (id : ℕ) (built : Text) → entry_diff id built (some built) ≡ none
unfolding entry_diff
entry_diff-same id built = rw (same_text_refl built) refl

insert-known : (k : ℕ) (v : Text) (m : Map Text) → m k ≡ some v → (j : ℕ) → insert k v m j ≡ m j
insert-known k v m h j = ground (arith, h)

-- the step of the loop, by what it reports
apply-keep_diff :
    (built : Text) (id : ℕ) (m : Map Text) (d : Option (ℕ × Text)) (es : Entries) (k : ℕ)
    → entry_diff id built (m id) ≡ d
    → apply_entries (keep_diff d es) m k ≡ apply_entries es (insert id built m) k
unfolding keep_diff apply_entries
apply-keep_diff built id m none es k h =
    apply_entries-ext es m (insert id built m)
      (λ j. sym (insert-known id built m (entry_diff-none id built (m id) h) j)) k
apply-keep_diff built id m (some d) es k h =
    let e = entry_diff-some id built (m id) d h in ap (λ p. apply_entries (p ∷ es) m k) e

-- The reported entries turn the old outputs into the new ones.
pub diff_clusters-applied :
    (built : ℕ → Text) (cs : List ClusterData) (m : Map Text) (k : ℕ)
    → apply_entries (diff_clusters built cs m).1 m k ≡ (diff_clusters built cs m).0 k
unfolding diff_clusters apply_entries upsert_diff
diff_clusters-applied built [] m k = refl
diff_clusters-applied built (c ∷ cs) m k =
    let m' = insert c.id (built c.id) m in
    apply-keep_diff (built c.id) c.id m (entry_diff c.id (built c.id) (m c.id))
      (diff_clusters built cs m').1 k refl
    ∙ diff_clusters-applied built cs m' k

-- what the loop has written stays, since it writes the same output for the same cluster
diff_clusters-kept :
    (built : ℕ → Text) (cs : List ClusterData) (m : Map Text) (k : ℕ)
    → m k ≡ some (built k)
    → (diff_clusters built cs m).0 k ≡ some (built k)
unfolding diff_clusters upsert_diff
diff_clusters-kept built [] m k h = h
diff_clusters-kept built (c ∷ cs) m k h =
    diff_clusters-kept built cs (insert c.id (built c.id) m) k (ground (arith, h))

pub diff_clusters-Shows :
    (built : ℕ → Text) (cs : List ClusterData) (m : Map Text)
    → Shows built cs (diff_clusters built cs m).0
unfolding Shows diff_clusters upsert_diff
diff_clusters-Shows built [] m = tt
diff_clusters-Shows built (c ∷ cs) m = (
  diff_clusters-kept built cs (insert c.id (built c.id) m) c.id (ground arith),
  diff_clusters-Shows built cs (insert c.id (built c.id) m),
)

pub Shows-ext :
    (built : ℕ → Text) (cs : List ClusterData) (m n : Map Text)
    → ((k : ℕ) → n k ≡ m k)
    → Shows built cs m
    → Shows built cs n
unfolding Shows
Shows-ext built [] m n e h = tt
Shows-ext built (c ∷ cs) m n e (h, hs) = (e c.id ∙ h, Shows-ext built cs m n e hs)

-- Outputs that are known already are not reported.
pub diff_clusters-Shows-nothing :
    (built : ℕ → Text) (cs : List ClusterData) (m : Map Text)
    → Shows built cs m
    → (diff_clusters built cs m).1 ≡ []
unfolding Shows diff_clusters upsert_diff keep_diff
diff_clusters-Shows-nothing built [] m h = refl
diff_clusters-Shows-nothing built (c ∷ cs) m (h, hs) =
    let m' = insert c.id (built c.id) m in
    let rest =
      diff_clusters-Shows-nothing built cs m'
        (Shows-ext built cs m m' (insert-known c.id (built c.id) m h) hs) in
    ap (λ o. keep_diff (entry_diff c.id (built c.id) o) (diff_clusters built cs m').1) h
    ∙ (ap (λ d. keep_diff d (diff_clusters built cs m').1) (entry_diff-same c.id (built c.id))
        ∙ rest)
