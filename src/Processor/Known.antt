-- ===== src/Processor/Known.antt =====
-- The references of crates/citeproc/src/processor.rs are a map from ids to references, and the calls
-- are the operations of that map.
use citeproc_rs.Base.{
  ◌≡◌, ◌∙◌, ◌==◌, if◌then◌else◌, none, inl, inr, refl, arith, [], ◌∷◌, ℕ, List, map, ◌||◌, not, sym,
  Bool-cases, ◌&&◌, ap, ==_iff,
}
use citeproc_rs.Base.Map.{Map, empty, insert}
use citeproc_rs.Base.Sets.{contains}
use citeproc_rs.Base.Counts.{contains-append}
use citeproc_rs.Sorting.Document.{index_insert, index_extend}
use citeproc_rs.Processor.Clusters.{store}
use citeproc_rs.Processor.References.{
  Reference, References, reference, set_reference_input, set_all_keys, set_inputs, reset_references,
  extend_loop, extend_references, insert_reference, remove_reference, clear_references,
}

pub data Call (R : Type 0) : Type 0 where
  reset : List (Reference R) → Call R
  extend_by : List (Reference R) → Call R
  insert_one : Reference R → Call R
  remove_one : ℕ → Call R
  clear : Call R

contains-index_insert :
    (k x : ℕ) (s : List ℕ) → contains k (index_insert x s) ≡ ((x == k) || contains k s)
unfolding index_insert
contains-index_insert k x s = elim (Bool-cases (contains x s)) [
  | inl old ↦ elim (Bool-cases (x == k)) [
    | inl same ↦
        let at : x ≡ k = (==_iff x k).0 same in ground (arith, old, same, ap (λ i. contains i s) at)
    | inr other ↦ ground (arith, old, other)
  ]
  | inr new ↦ ground (arith, new, contains-append k s (x ∷ []))
]

module _ {R : Type 0} where
  -- the calls on the map
  unfoldable pub insert_each : List (Reference R) → Map (Reference R) → Map (Reference R)
  insert_each [] m = m
  insert_each (r ∷ rs) m = insert_each rs (insert r.id r m)

  unfoldable pub call_map : Call R → Map (Reference R) → Map (Reference R)
  unfolding insert_each
  call_map (reset rs) m = insert_each rs empty
  call_map (extend_by rs) m = insert_each rs m
  call_map (insert_one r) m = insert r.id r m
  call_map (remove_one id) m = store id none m
  call_map clear m = empty

  unfoldable pub call_maps : List (Call R) → Map (Reference R) → Map (Reference R)
  unfolding call_map
  call_maps [] m = m
  call_maps (c ∷ cs) m = call_maps cs (call_map c m)

  insert_each-ext :
      (rs : List (Reference R)) (m n : Map (Reference R))
      → ((k : ℕ) → m k ≡ n k)
      → (k : ℕ) → insert_each rs m k ≡ insert_each rs n k
  unfolding insert_each
  insert_each-ext [] m n h k = h k
  insert_each-ext (r ∷ rs) m n h k =
      insert_each-ext rs (insert r.id r m) (insert r.id r n) (λ j. ground (arith, h j)) k

  call_map-ext :
      (c : Call R) (m n : Map (Reference R))
      → ((k : ℕ) → m k ≡ n k)
      → (k : ℕ) → call_map c m k ≡ call_map c n k
  unfolding call_map
  call_map-ext (reset rs) m n h k = refl
  call_map-ext (extend_by rs) m n h k = insert_each-ext rs m n h k
  call_map-ext (insert_one r) m n h k = ground (arith, h k)
  call_map-ext (remove_one id) m n h k = ground (arith, h k)
  call_map-ext clear m n h k = refl

  call_maps-ext :
      (cs : List (Call R)) (m n : Map (Reference R))
      → ((k : ℕ) → m k ≡ n k)
      → (k : ℕ) → call_maps cs m k ≡ call_maps cs n k
  unfolding call_maps
  call_maps-ext [] m n h k = h k
  call_maps-ext (c ∷ cs) m n h k =
      call_maps-ext cs (call_map c m) (call_map c n) (call_map-ext c m n h) k

  -- the view of the inputs with some keys
  abbrev seen : List ℕ → References R → Map (Reference R)
  seen keys db k = if contains k keys then db.reference_input k else none

  seen-insert :
      (r : Reference R) (keys : List ℕ) (db : References R) (k : ℕ)
      → insert r.id r (seen keys db) k ≡ seen (index_insert r.id keys) (set_reference_input r db) k
  unfolding set_reference_input
  seen-insert r keys db k = ground (arith, contains-index_insert k r.id keys)

  reference-extend_loop :
      (rs : List (Reference R)) (keys : List ℕ) (db : References R) (k : ℕ)
      → reference (extend_loop rs keys db) k ≡ insert_each rs (seen keys db) k
  unfolding extend_loop insert_each reference set_all_keys
  reference-extend_loop [] keys db k = refl
  reference-extend_loop (r ∷ rs) keys db k =
      reference-extend_loop rs (index_insert r.id keys) (set_reference_input r db) k
      ∙ insert_each-ext rs (seen (index_insert r.id keys) (set_reference_input r db))
          (insert r.id r (seen keys db)) (λ j. sym (seen-insert r keys db j)) k

  -- a new list of references is the same as an empty one that is extended
  reset-extend_loop :
      (rs : List (Reference R)) (keys : List ℕ) (db : References R)
      → set_all_keys (index_extend (map (λ r. r.id) rs) keys) (set_inputs rs db)
        ≡ extend_loop rs keys db
  unfolding extend_loop index_extend set_inputs set_all_keys set_reference_input
  reset-extend_loop [] keys db = refl
  reset-extend_loop (r ∷ rs) keys db =
      reset-extend_loop rs (index_insert r.id keys) (set_reference_input r db)

  module _ (remove : ℕ → List ℕ → List ℕ) where
    unfoldable pub run_call : Call R → References R → References R
    unfolding reset_references extend_references insert_reference remove_reference clear_references
    run_call (reset rs) db = reset_references rs db
    run_call (extend_by rs) db = extend_references rs db
    run_call (insert_one r) db = insert_reference r db
    run_call (remove_one id) db = remove_reference remove id db
    run_call clear db = clear_references db

    unfoldable pub run_calls : List (Call R) → References R → References R
    unfolding run_call
    run_calls [] db = db
    run_calls (c ∷ cs) db = run_calls cs (run_call c db)

  module _ (remove : ℕ → List ℕ → List ℕ)
      (contains-remove : (k id : ℕ) (keys : List ℕ)
        → contains k (remove id keys) ≡ (not (id == k) && contains k keys)) where
    reference-run_call :
        (c : Call R) (db : References R) (k : ℕ)
        → reference (run_call remove c db) k ≡ call_map c (reference db) k
    unfolding run_call call_map reset_references extend_references insert_reference remove_reference
        clear_references reference set_all_keys
    reference-run_call (reset rs) db k =
        ap (λ d. reference d k) (reset-extend_loop rs [] db) ∙ reference-extend_loop rs [] db k
    reference-run_call (extend_by rs) db k = reference-extend_loop rs db.all_keys db k
    reference-run_call (insert_one r) db k = sym (seen-insert r db.all_keys db k)
    reference-run_call (remove_one id) db k = ground (arith, contains-remove k id db.all_keys)
    reference-run_call clear db k = refl

    -- After any sequence of calls, the reference of a key is the one that the same calls leave in a
    -- map of references, where a removal from the index set takes out the one key.
    pub reference-run_calls :
        (cs : List (Call R)) (db : References R) (k : ℕ)
        → reference (run_calls remove cs db) k ≡ call_maps cs (reference db) k
    unfolding run_calls call_maps
    reference-run_calls [] db k = refl
    reference-run_calls (c ∷ cs) db k =
        reference-run_calls cs (run_call remove c db) k
        ∙ call_maps-ext cs (reference (run_call remove c db)) (call_map c (reference db))
            (reference-run_call c db) k
