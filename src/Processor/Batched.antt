-- ===== src/Processor/Batched.antt =====
-- What `batched_updates` of crates/citeproc/src/processor.rs promises to a client.
use citeproc_rs.Base.{
  true, false, ℕ, refl, arith, [], ◌∷◌, inl, inr, ◌≡◌, some, if◌then◌else◌, Option, Bool-cases,
  List, none, false, ap, ◌==◌, sym, ◌∙◌, not, ==_iff, Bool,
}
use citeproc_rs.Base.Map.{Map}
use citeproc_rs.Base.Texts.{Text, same_text, same_text_refl, same_text_sound}
use mathlib.Core.Path.{subst}
use citeproc_rs.Processor.Updates.{
  diff_clusters, Entries, get_entry, BibliographyUpdate, Saved, Outputs, compute, differs,
  updated_entries_of, unless_empty, new_order, save_and_diff_bibliography, save_and_diff_with,
  batched_updates,
}
use citeproc_rs.Processor.Sync.{
  apply_entries, apply_entries-ext, Shows, Shows-ext, diff_clusters-applied, diff_clusters-Shows,
  diff_clusters-Shows-nothing,
}
use citeproc_rs.Processor.Client.{
  Keyed, Client, apply_order, apply_bibliography, apply_summary, Agrees, apply_entries-get_entry,
  apply_entries-other, get_entry-updated_entries_of-none, get_entry-updated_entries_of,
}

-- an update of nothing may be left out
apply-unless_empty :
    (entries : Entries) (ids : Option (List ℕ)) (client : Client)
    → apply_bibliography (unless_empty entries ids) client ≡ record client {
      entries = apply_entries entries client.entries;
      order = apply_order ids client.order;
    }
unfolding unless_empty apply_bibliography apply_entries apply_order
apply-unless_empty [] none client = refl
apply-unless_empty [] (some _) client = refl
apply-unless_empty (_ ∷ _) ids client = refl

apply-new_order : (new old : List ℕ) → apply_order (new_order new old) old ≡ new
unfolding new_order apply_order
apply-new_order new old = elim (Bool-cases (same_text new old)) [
  | inl same ↦ ground (arith, same, same_text_sound new old same)
  | inr other ↦ ground (arith, other)
]

updated_entries_of-Keyed : (new old : Entries) → Keyed new → Keyed (updated_entries_of new old)
unfolding updated_entries_of Keyed
updated_entries_of-Keyed [] old d = tt
updated_entries_of-Keyed ((k, v) ∷ es) old (e, d) =
    let rest = updated_entries_of-Keyed es old d in
    elim (differs v (get_entry k old))
      as (λ b.
        Keyed (if b then (k, v) ∷ updated_entries_of es old else updated_entries_of es old)) [
          | true ↦ (get_entry-updated_entries_of-none es old k e, rest)
          | false ↦ rest
        ]

differs-false : (v : Text) (o : Option Text) → differs v o ≡ false → o ≡ some v
unfolding differs
differs-false v none h = cc h
differs-false v (some w) h = ap some (sym (same_text_sound v w (ground (arith, h))))

differs-same : (v : Text) → differs v (some v) ≡ false
unfolding differs
differs-same v = ap not (same_text_refl v)

-- an entry of the new bibliography, at a client that had the old one
apply-updated_entries_of :
    (new old : Entries) (m : Map Text)
    → Keyed new
    → ((k : ℕ) (v : Text) → get_entry k old ≡ some v → m k ≡ some v)
    → (k : ℕ) (v : Text) → get_entry k new ≡ some v
    → apply_entries (updated_entries_of new old) m k ≡ some v
apply-updated_entries_of new old m keyed h k v e =
    let found = get_entry-updated_entries_of new old k v keyed e in
    let updated = updated_entries_of new old in
    elim (Bool-cases (differs v (get_entry k old))) [
      | inl new_here ↦
          apply_entries-get_entry updated m k v (updated_entries_of-Keyed new old keyed)
            (found ∙ ground (arith, new_here))
      | inr old_here ↦
          apply_entries-other updated m k (found ∙ ground (arith, old_here))
          ∙ h k v (differs-false v (get_entry k old) old_here)
    ]

-- an entry of the tail is one of the whole
get_entry-tail :
    (k : ℕ) (v : Text) (es : Entries) (j : ℕ) (w : Text)
    → get_entry k es ≡ none
    → get_entry j es ≡ some w
    → get_entry j ((k, v) ∷ es) ≡ some w
unfolding get_entry
get_entry-tail k v es j w e h = elim (Bool-cases (k == j)) [
  | inl same ↦ let at : k ≡ j = (==_iff k j).0 same in cc (at, e, h)
  | inr other ↦ ground (arith, other, h)
]

-- entries that stand in the old bibliography are no updates
updated_entries_of-known :
    (es old : Entries)
    → Keyed es
    → ((k : ℕ) (v : Text) → get_entry k es ≡ some v → get_entry k old ≡ some v)
    → updated_entries_of es old ≡ []
unfolding updated_entries_of Keyed get_entry
updated_entries_of-known [] old d h = refl
updated_entries_of-known ((k, v) ∷ es) old (e, d) h =
    let here : get_entry k old ≡ some v = h k v (ground arith) in
    let rest = updated_entries_of-known es old d (λ j w f. h j w (get_entry-tail k v es j w e f)) in
    ap (λ o. if differs v o then (k, v) ∷ updated_entries_of es old else updated_entries_of es old)
      here
    ∙ ground (arith, differs-same v, rest)

bibliography-clusters :
    (b : Bool) (out : Outputs) (saved : Saved)
    → (save_and_diff_with b out saved).0.last_clusters ≡ saved.last_clusters
unfolding save_and_diff_with
bibliography-clusters true out saved = refl
bibliography-clusters false out saved = refl

apply_bibliography-shown :
    (update : Option BibliographyUpdate) (client : Client)
    → (apply_bibliography update client).shown ≡ client.shown
unfolding apply_bibliography
apply_bibliography-shown none client = refl
apply_bibliography-shown (some update) client = refl

-- the bibliography of the client follows that of the processor
bibliography-Agrees :
    (b : Bool) (out : Outputs) (saved : Saved) (client : Client)
    → Keyed out.bibliography_map
    → Agrees saved client
    → Agrees
        (save_and_diff_with b out saved).0
        (apply_bibliography (save_and_diff_with b out saved).1 client)
unfolding save_and_diff_with apply_bibliography
bibliography-Agrees false out saved client keyed a = a
bibliography-Agrees true out saved client keyed a =
    let entries = updated_entries_of out.bibliography_map saved.last_bibliography.bib_entries in
    let ids = new_order out.bibliography_order saved.last_bibliography.sorted_refs in
    let saved' = (save_and_diff_with true out saved).0 in
    subst (Agrees saved') (sym (apply-unless_empty entries ids client)) (record {
      same_shown = a.same_shown;
      same_entries =
          apply-updated_entries_of out.bibliography_map saved.last_bibliography.bib_entries
            client.entries keyed a.same_entries;
      same_order =
          ap (apply_order ids) a.same_order
          ∙ apply-new_order out.bibliography_order saved.last_bibliography.sorted_refs;
    })

clusters-Agrees :
    (out : Outputs) (saved : Saved) (client : Client)
    → Agrees saved client
    → Agrees
        (compute out saved).0
        (record client { shown = apply_entries (compute out saved).1 client.shown })
unfolding compute
clusters-Agrees out saved client a = record {
  same_shown = λ k.
      apply_entries-ext
        (diff_clusters out.rendered_cluster out.clusters_cites_sorted saved.last_clusters).1
        client.shown saved.last_clusters a.same_shown k
      ∙ diff_clusters-applied out.rendered_cluster out.clusters_cites_sorted saved.last_clusters k;
  same_entries = a.same_entries;
  same_order = a.same_order;
}

pub batched_updates-Agrees :
    (out : Outputs) (saved : Saved) (client : Client)
    → Keyed out.bibliography_map
    → Agrees saved client
    → Agrees (batched_updates out saved).0 (apply_summary (batched_updates out saved).1 client)
unfolding batched_updates apply_summary save_and_diff_bibliography
batched_updates-Agrees out saved client keyed a =
    bibliography-Agrees out.has_bibliography out (compute out saved).0
      (record client { shown = apply_entries (compute out saved).1 client.shown }) keyed
      (clusters-Agrees out saved client a)

-- After an update the client has the output of every cluster of the document.
pub batched_updates-Shows :
    (out : Outputs) (saved : Saved) (client : Client)
    → Keyed out.bibliography_map
    → Agrees saved client
    → Shows out.rendered_cluster out.clusters_cites_sorted
        (apply_summary (batched_updates out saved).1 client).shown
unfolding batched_updates compute save_and_diff_bibliography
batched_updates-Shows out saved client keyed a =
    Shows-ext out.rendered_cluster out.clusters_cites_sorted
      (diff_clusters out.rendered_cluster out.clusters_cites_sorted saved.last_clusters).0
      (apply_summary (batched_updates out saved).1 client).shown
      (λ k.
        (batched_updates-Agrees out saved client keyed a).same_shown k
        ∙ ap (λ m. m k) (bibliography-clusters out.has_bibliography out (compute out saved).0))
      (diff_clusters-Shows out.rendered_cluster out.clusters_cites_sorted saved.last_clusters)

new_order-same : (order : List ℕ) → new_order order order ≡ none
unfolding new_order
new_order-same order = ap (λ b. if b then none else some order) (same_text_refl order)

bibliography-again :
    (b : Bool) (out : Outputs) (saved saved' : Saved)
    → Keyed out.bibliography_map
    → saved'.last_bibliography ≡ (save_and_diff_with b out saved).0.last_bibliography
    → (save_and_diff_with b out saved').1 ≡ none
unfolding save_and_diff_with unless_empty
bibliography-again false out saved saved' keyed h = refl
bibliography-again true out saved saved' keyed h =
    let map = out.bibliography_map in
    let order = out.bibliography_order in
    ap
      (λ bib.
        unless_empty (updated_entries_of map bib.bib_entries) (new_order order bib.sorted_refs))
      h
    ∙ (ap (λ es. unless_empty es (new_order order order))
          (updated_entries_of-known map map keyed (λ k v e. e))
        ∙ ap (unless_empty []) (new_order-same order))

-- Where nothing was edited since the last update, the next one is empty: no cluster is reported, and
-- there is no update of the bibliography.
pub batched_updates-again :
    (out : Outputs) (saved : Saved)
    → Keyed out.bibliography_map
    → (batched_updates out (batched_updates out saved).0).1
      ≡ record { clusters = []; bibliography = none }
unfolding batched_updates compute save_and_diff_bibliography
batched_updates-again out saved keyed =
    let first = (compute out saved).0 in
    let again = (batched_updates out saved).0 in
    let b = out.has_bibliography in
    let quiet =
      diff_clusters-Shows-nothing out.rendered_cluster out.clusters_cites_sorted again.last_clusters
        (Shows-ext out.rendered_cluster out.clusters_cites_sorted first.last_clusters
          again.last_clusters (λ k. ap (λ m. m k) (bibliography-clusters b out first))
          (diff_clusters-Shows out.rendered_cluster out.clusters_cites_sorted
            saved.last_clusters)) in
    let still = bibliography-again b out first (compute out again).0 keyed refl in
    ap (λ es. (record { clusters = es; bibliography = (batched_updates out again).1.bibliography }))
      quiet
    ∙ ap (λ u. record { clusters = []; bibliography = u }) still
