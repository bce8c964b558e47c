-- ===== src/Processor/References.antt =====
-- The references of crates/citeproc/src/processor.rs: which are known, and what was last given for
-- each. The removal from an index set is a parameter, with its effect on membership.
use citeproc_rs.Base.{if◌then◌else◌, none, [], ◌∷◌, ℕ, Option, List, map}
use citeproc_rs.Base.Map.{Map, insert}
use citeproc_rs.Base.Sets.{contains}
use citeproc_rs.Sorting.Document.{Uncited, all_uncited, enumerated, index_insert, index_extend}

pub record Reference (R : Type 0) : Type 0 where
  pub id : ℕ
  pub body : R

-- the inputs that the calls write
pub record References (R : Type 0) : Type 0 where
  pub all_keys : List ℕ
  pub reference_input : Map (Reference R)
  pub uncited : Uncited

pub data IncludeUncited : Type 0 where
  no_uncited : IncludeUncited
  all_included : IncludeUncited
  specific : List ℕ → IncludeUncited

module _ {R : Type 0} where
  -- the query `reference`
  unfoldable pub reference : References R → ℕ → Option (Reference R)
  reference db key = if contains key db.all_keys then db.reference_input key else none

  unfoldable pub set_reference_input : Reference R → References R → References R
  set_reference_input r db = record db { reference_input = insert r.id r db.reference_input }

  unfoldable pub set_all_keys : List ℕ → References R → References R
  set_all_keys keys db = record db { all_keys = keys }

  unfoldable pub set_inputs : List (Reference R) → References R → References R
  unfolding set_reference_input
  set_inputs [] db = db
  set_inputs (r ∷ rs) db = set_inputs rs (set_reference_input r db)

  unfoldable pub reset_references : List (Reference R) → References R → References R
  unfolding set_inputs set_all_keys index_extend
  reset_references rs db = set_all_keys (index_extend (map (λ r. r.id) rs) []) (set_inputs rs db)

  -- the loop of `extend_references`, with the keys that it collects
  unfoldable pub extend_loop : List (Reference R) → List ℕ → References R → References R
  unfolding set_reference_input set_all_keys index_insert
  extend_loop [] keys db = set_all_keys keys db
  extend_loop (r ∷ rs) keys db = extend_loop rs (index_insert r.id keys) (set_reference_input r db)

  unfoldable pub extend_references : List (Reference R) → References R → References R
  unfolding extend_loop
  extend_references rs db = extend_loop rs db.all_keys db

  unfoldable pub insert_reference : Reference R → References R → References R
  unfolding set_reference_input set_all_keys index_insert
  insert_reference r db = set_all_keys (index_insert r.id db.all_keys) (set_reference_input r db)

  -- `remove` is that of the index set
  unfoldable pub remove_reference : (ℕ → List ℕ → List ℕ) → ℕ → References R → References R
  unfolding set_all_keys
  remove_reference remove id db = set_all_keys (remove id db.all_keys) db

  unfoldable pub clear_references : References R → References R
  unfolding set_all_keys
  clear_references db = set_all_keys [] db

  unfoldable pub include_uncited : IncludeUncited → References R → References R
  unfolding index_extend
  include_uncited all_included db = record db { uncited = all_uncited }
  include_uncited no_uncited db = record db { uncited = enumerated [] }
  include_uncited (specific ids) db = record db { uncited = enumerated (index_extend ids []) }
