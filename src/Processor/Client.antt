-- ===== src/Processor/Client.antt =====
-- A client of `batched_updates` of crates/citeproc/src/processor.rs holds all the outputs, and a call
-- with no edit since the last one reports nothing.
use citeproc_rs.Base.{
  inl, inr, [], ◌∷◌, ℕ, refl, arith, ◌≡◌, List, Option, none, some, if◌then◌else◌, Bool-cases, ◌∙◌,
  ◌==◌, inl, ==_iff, ap, sym,
}
use citeproc_rs.Base.Map.{Map, insert}
use citeproc_rs.Base.Texts.{Text}
use citeproc_rs.Processor.Updates.{
  Entries, get_entry, BibliographyUpdate, UpdateSummary, Saved, differs, updated_entries_of,
}
use citeproc_rs.Processor.Sync.{apply_entries}

-- a hash map has one entry for a key
unfoldable pub Keyed : Entries → Type 0
unfolding get_entry
Keyed [] = Unit
Keyed ((k, v) ∷ es) = (get_entry k es ≡ none) × Keyed es

pub record Client : Type 0 where
  pub shown : Map Text
  pub entries : Map Text
  pub order : List ℕ

unfoldable pub apply_order : Option (List ℕ) → List ℕ → List ℕ
apply_order none old = old
apply_order (some new) old = new

unfoldable pub apply_bibliography : Option BibliographyUpdate → Client → Client
unfolding apply_entries apply_order
apply_bibliography none client = client
apply_bibliography (some update) client = record client {
  entries = apply_entries update.updated_entries client.entries;
  order = apply_order update.entry_ids client.order;
}

unfoldable pub apply_summary : UpdateSummary → Client → Client
unfolding apply_entries apply_bibliography
apply_summary summary client =
    apply_bibliography summary.bibliography
      (record client { shown = apply_entries summary.clusters client.shown })

-- the client has what the processor remembers to have reported
pub record Agrees (saved : Saved) (client : Client) : Type 0 where
  pub same_shown : (k : ℕ) → client.shown k ≡ saved.last_clusters k
  pub same_entries :
      (k : ℕ) (v : Text)
      → get_entry k saved.last_bibliography.bib_entries ≡ some v
      → client.entries k ≡ some v
  pub same_order : client.order ≡ saved.last_bibliography.sorted_refs

pub apply_entries-other :
    (es : Entries) (m : Map Text) (k : ℕ) → get_entry k es ≡ none → apply_entries es m k ≡ m k
unfolding get_entry apply_entries
apply_entries-other [] m k h = refl
apply_entries-other ((j, v) ∷ es) m k h =
    apply_entries-other es (insert j v m) k (ground (arith, h)) ∙ ground (arith, h)

pub apply_entries-get_entry :
    (es : Entries) (m : Map Text) (k : ℕ) (v : Text)
    → Keyed es
    → get_entry k es ≡ some v
    → apply_entries es m k ≡ some v
unfolding get_entry apply_entries Keyed
apply_entries-get_entry [] m k v d h = cc h
apply_entries-get_entry ((j, w) ∷ es) m k v (e, d) h = elim (Bool-cases (j == k)) [
  | inl same ↦
      let at : j ≡ k = (==_iff j k).0 same in
      apply_entries-other es (insert j w m) k (ap (λ i. get_entry i es) (sym at) ∙ e)
      ∙ ground (arith, h)
  | inr other ↦ apply_entries-get_entry es (insert j w m) k v d (ground (arith, h))
]

-- what is new is what stands among the updates
pub get_entry-updated_entries_of-none :
    (new old : Entries) (k : ℕ)
    → get_entry k new ≡ none
    → get_entry k (updated_entries_of new old) ≡ none
unfolding get_entry updated_entries_of
get_entry-updated_entries_of-none [] old k h = refl
get_entry-updated_entries_of-none ((j, v) ∷ es) old k h =
    ground (arith, h, get_entry-updated_entries_of-none es old k)

pub get_entry-updated_entries_of :
    (new old : Entries) (k : ℕ) (v : Text)
    → Keyed new
    → get_entry k new ≡ some v
    → get_entry k (updated_entries_of new old)
      ≡ (if differs v (get_entry k old) then some v else none)
unfolding get_entry updated_entries_of Keyed
get_entry-updated_entries_of [] old k v d h = cc h
get_entry-updated_entries_of ((j, w) ∷ es) old k v (e, d) h = elim (Bool-cases (j == k)) [
  | inl same ↦
      let at : j ≡ k = (==_iff j k).0 same in
      let tail =
        get_entry-updated_entries_of-none es old k (ap (λ i. get_entry i es) (sym at) ∙ e) in
      let found : w ≡ v = ground (arith, h) in
      ap
        (λ i. get_entry k (
          if differs w (get_entry i old)
          then (i, w) ∷ updated_entries_of es old
          else updated_entries_of es old))
        at
      ∙ ground (arith, found, tail)
  | inr other ↦
      ground (arith, h, other, get_entry-updated_entries_of es old k v d (ground (arith, h)))
]
