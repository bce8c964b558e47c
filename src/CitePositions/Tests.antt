-- ===== src/CitePositions/Tests.antt =====
-- A document of four notes and a cluster outside the flow.
use citeproc_rs.Base.{
  ℕ, true, List, [], ◌∷◌, ◌++◌, Option, none, some, ◌≡◌, ◌≢◌, refl, if◌then◌else◌, ◌==◌,
}
use citeproc_rs.Position.{Position, first, ibid_near, far_note}
use citeproc_rs.ClusterNumber.{
  IntraNote, multi, note, outside_flow, note_number, same_note, sub_note,
}
use citeproc_rs.Cites.{Cite}
use citeproc_rs.CitePositions.{
  ClusterData, IrDatabase, cite_positions, run, cite_step, locator_position, matching_prev,
  cites_loop,
}
use citeproc_rs.CitePositions.FirstSeen.{first_reference, first_note, first_seen-run}
use citeproc_rs.CitePositions.Cited.{Cited}
use citeproc_rs.CitePositions.Notes.{cite-later_note, cite_repeated}

-- cite 10 * c + i is cite i of cluster c
abbrev refs : ℕ → Cite
refs id = record {
  ref_id = (if id == 20 then 6 else 5);
  prefix = none;
  suffix = none;
  locators = none;
  mode = none;
}

abbrev clusters : List ClusterData
clusters =
    record { id = 0; number = outside_flow; cites = 0 ∷ [] }
    ∷ record { id = 1; number = note (multi 1 0); cites = 10 ∷ 11 ∷ [] }
    ∷ record { id = 2; number = note (multi 2 0); cites = 20 ∷ [] }
    ∷ record { id = 3; number = note (multi 9 0); cites = 30 ∷ [] }
    ∷ []

abbrev cites_of_cluster : ℕ → Option (List ℕ)
cites_of_cluster i =
    if i == 0
    then some (0 ∷ [])
    else if i == 1
    then some (10 ∷ 11 ∷ [])
    else if i == 2
    then some (20 ∷ [])
    else some (30 ∷ [])

abbrev db : IrDatabase
db = record {
  lookup = refs;
  clusters_cites_sorted = clusters;
  cluster_cites_sorted = cites_of_cluster;
  near_note_distance = 5;
}

all_positions :
    (cite_positions db 0 ≡ some (first, none))
    × (cite_positions db 10 ≡ some (first, none))
    × (cite_positions db 11 ≡ some (ibid_near, some 1))
    × (cite_positions db 20 ≡ some (first, none))
    × (cite_positions db 30 ≡ some (far_note, some 1))
    × (cite_positions db 99 ≡ none)
unfolding cite_positions cites_loop matching_prev cite_step locator_position sub_note same_note
all_positions = (refl, refl, refl, refl, refl, refl)

abbrev tail1 : List ClusterData
tail1 =
    record { id = 2; number = note (multi 2 0); cites = 20 ∷ [] }
    ∷ record { id = 3; number = note (multi 9 0); cites = 30 ∷ [] }
    ∷ []

abbrev at_0 : Cited db 0
at_0 = record {
  before = [];
  cluster = record { id = 0; number = outside_flow; cites = 0 ∷ [] };
  after = record { id = 1; number = note (multi 1 0); cites = 10 ∷ 11 ∷ [] } ∷ tail1;
  splits = refl;
  pre = [];
  post = [];
  cites_split = refl;
  not_in_post = refl;
  not_in_after = refl;
}

abbrev at_11 : Cited db 11
at_11 = record {
  before = record { id = 0; number = outside_flow; cites = 0 ∷ [] } ∷ [];
  cluster = record { id = 1; number = note (multi 1 0); cites = 10 ∷ 11 ∷ [] };
  after = tail1;
  splits = refl;
  pre = 10 ∷ [];
  post = [];
  cites_split = refl;
  not_in_post = refl;
  not_in_after = refl;
}

abbrev at_20 : Cited db 20
at_20 = record {
  before =
      record { id = 0; number = outside_flow; cites = 0 ∷ [] }
      ∷ record { id = 1; number = note (multi 1 0); cites = 10 ∷ 11 ∷ [] }
      ∷ [];
  cluster = record { id = 2; number = note (multi 2 0); cites = 20 ∷ [] };
  after = record { id = 3; number = note (multi 9 0); cites = 30 ∷ [] } ∷ [];
  splits = refl;
  pre = [];
  post = [];
  cites_split = refl;
  not_in_post = refl;
  not_in_after = refl;
}

abbrev at_30 : Cited db 30
at_30 = record {
  before =
      record { id = 0; number = outside_flow; cites = 0 ∷ [] }
      ∷ record { id = 1; number = note (multi 1 0); cites = 10 ∷ 11 ∷ [] }
      ∷ record { id = 2; number = note (multi 2 0); cites = 20 ∷ [] }
      ∷ [];
  cluster = record { id = 3; number = note (multi 9 0); cites = 30 ∷ [] };
  after = [];
  splits = refl;
  pre = [];
  post = [];
  cites_split = refl;
  not_in_post = refl;
  not_in_after = refl;
}

first_seen-run_example : (run db clusters).first_seen 5 ≡ first_reference db 5 clusters
first_seen-run_example = first_seen-run db 5 clusters

cite-later_note_example : (p : Position) × (cite_positions db 30 ≡ some (p, some 1)) × (p ≢ first)
cite-later_note_example =
    cite-later_note db 30 at_30 {n = multi 9 0} {m = multi 1 0} refl (unfold first_note in refl)

cite_repeated_example :
    (m : IntraNote) × (first_note db 5
        (at_11.before ++ (record at_11.cluster { cites = 10 ∷ [] } ∷ []))
      ≡ some m)
    × (cite_positions db 11 ≡ some (locator_position none none true, some (note_number m)))
cite_repeated_example = cite_repeated db 11 at_11 [] 10 refl refl refl
