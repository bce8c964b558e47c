-- ===== src/Processor/ClientTests.antt =====
-- Runs of the updates for a client, and of the calls on references.
use citeproc_rs.Base.{
  ◌≡◌, ◌==◌, if◌then◌else◌, true, none, some, refl, arith, [], ◌∷◌, ℕ, List, not, ◌&&◌,
}
use citeproc_rs.Base.Map.{empty, insert}
use citeproc_rs.Base.Sets.{contains}
use citeproc_rs.ClusterNumber.{note, multi}
use citeproc_rs.Sorting.Document.{enumerated}
use citeproc_rs.Processor.Updates.{get_entry, Saved, Outputs, batched_updates}
use citeproc_rs.Processor.Sync.{Shows}
use citeproc_rs.Processor.Client.{Keyed, Client, Agrees, apply_summary}
use citeproc_rs.Processor.Batched.{batched_updates-Shows, batched_updates-again}
use citeproc_rs.Processor.References.{Reference, References, reference}
use citeproc_rs.Processor.Known.{
  Call, reset, extend_by, remove_one, call_maps, run_calls, reference-run_calls,
}

-- the updates of a document of two clusters and two references
abbrev outputs : Outputs
outputs = record {
  clusters_cites_sorted =
      record { id = 1; number = note (multi 1 0); cites = [] }
      ∷ record { id = 2; number = note (multi 2 0); cites = [] }
      ∷ [];
  rendered_cluster = λ id. id ∷ id ∷ [];
  has_bibliography = true;
  bibliography_map = (7, 70 ∷ []) ∷ (8, 80 ∷ []) ∷ [];
  bibliography_order = 8 ∷ 7 ∷ [];
}

abbrev reported : Saved
reported = record {
  last_clusters = insert 1 (1 ∷ 1 ∷ []) empty;
  last_bibliography = record { sorted_refs = 7 ∷ []; bib_entries = (7, 70 ∷ []) ∷ [] };
}

abbrev client : Client
client = record {
  shown = insert 1 (1 ∷ 1 ∷ []) empty;
  entries = insert 7 (70 ∷ []) empty;
  order = 7 ∷ [];
}

outputs-Keyed : Keyed outputs.bibliography_map
unfolding Keyed
outputs-Keyed = (refl, (refl, tt))

client-Agrees : Agrees reported client
unfolding get_entry
client-Agrees = record { same_shown = λ k. refl; same_entries = λ k v h. h; same_order = refl }

changes : (batched_updates outputs reported).1 ≡ record {
  clusters = (2, 2 ∷ 2 ∷ []) ∷ [];
  bibliography =
      some (record { updated_entries = (8, 80 ∷ []) ∷ []; entry_ids = some (8 ∷ 7 ∷ []) });
}
unfolding batched_updates
changes = refl

batched_updates-Shows_example :
    Shows outputs.rendered_cluster outputs.clusters_cites_sorted
      (apply_summary (batched_updates outputs reported).1 client).shown
batched_updates-Shows_example =
    batched_updates-Shows outputs reported client outputs-Keyed client-Agrees

batched_updates-again_example :
    (batched_updates outputs (batched_updates outputs reported).0).1
    ≡ record { clusters = []; bibliography = none }
batched_updates-again_example = batched_updates-again outputs reported outputs-Keyed

-- calls on references
abbrev remove_key : ℕ → List ℕ → List ℕ
remove_key id [] = []
remove_key id (k ∷ ks) = let rest = remove_key id ks in if k == id then rest else k ∷ rest

contains-remove_key :
    (k id : ℕ) (keys : List ℕ)
    → contains k (remove_key id keys) ≡ (not (id == k) && contains k keys)
contains-remove_key k id [] = ground arith
contains-remove_key k id (x ∷ xs) = ground (arith, contains-remove_key k id xs)

abbrev ref_of : ℕ → ℕ → Reference ℕ
ref_of id body = record { id = id; body = body }

abbrev no_references : References ℕ
no_references = record { all_keys = []; reference_input = empty; uncited = enumerated [] }

abbrev calls : List (Call ℕ)
calls =
    reset (ref_of 1 10 ∷ ref_of 2 20 ∷ [])
    ∷ extend_by (ref_of 1 11 ∷ ref_of 3 30 ∷ [])
    ∷ remove_one 2
    ∷ []

reference-run_calls_example :
    reference (run_calls remove_key calls no_references) 1
    ≡ call_maps calls (reference no_references) 1
reference-run_calls_example =
    reference-run_calls remove_key contains-remove_key calls no_references 1
