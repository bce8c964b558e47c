-- ===== src/Sorting/Members.antt =====
-- Which references a document cites and which its bibliography may have.
use citeproc_rs.Base.{
  ℕ, Bool, true, false, ◌&&◌, ◌||◌, List, [], ◌∷◌, ◌++◌, map, ◌≡◌, refl, ap, ◌∙◌, sym, arith,
  if◌then◌else◌, ◌==◌, ==_iff, Bool-cases, inl, inr,
}
use citeproc_rs.Base.Counts.{contains-append}
use citeproc_rs.Base.Sets.{contains}
use citeproc_rs.Sorting.Document.{
  Document, Uncited, all_uncited, enumerated, index_insert, index_extend, insert_known, cited_keys,
  all_cite_ids, common, participants, disamb_participants,
}

-- a number put into a set twice is there once
contains_same :
    (k x : ℕ) (s : List ℕ) → contains x s ≡ true → ((x == k) || contains k s) ≡ contains k s
contains_same k x s h = elim (Bool-cases (x == k)) [
  | inl e ↦
      ap (λ b. b || contains k s) e ∙ sym (ap (λ y. contains y s) (sym ((==_iff x k).0 e)) ∙ h)
  | inr e ↦ ap (λ b. b || contains k s) e
]

index_insert-contains :
    (k x : ℕ) (s : List ℕ) → contains k (index_insert x s) ≡ ((x == k) || contains k s)
unfolding index_insert
index_insert-contains k x s = elim (Bool-cases (contains x s)) [
  | inl e ↦ ap (λ b. contains k (if b then s else s ++ x ∷ [])) e ∙ sym (contains_same k x s e)
  | inr e ↦
      ap (λ b. contains k (if b then s else s ++ x ∷ [])) e
      ∙ (contains-append k s (x ∷ []) ∙ ground arith)
]

index_extend-contains :
    (k : ℕ) (xs s : List ℕ) → contains k (index_extend xs s) ≡ (contains k xs || contains k s)
unfolding index_extend
index_extend-contains k [] s = refl
index_extend-contains k (x ∷ xs) s =
    index_extend-contains k xs (index_insert x s)
    ∙ (ap (λ b. contains k xs || b) (index_insert-contains k x s) ∙ ground arith)

known_lem :
    (k r : ℕ) (known : List ℕ) (there kept : Bool)
    → contains r known ≡ true
    → ((there && contains k known) || ((r == k) || kept))
      ≡ ((((r == k) || there) && contains k known) || kept)
known_lem k r known there kept h = elim (Bool-cases (r == k)) [
  | inl e ↦
      let at_k : contains k known ≡ true =
        ap (λ y. contains y known) (sym ((==_iff r k).0 e)) ∙ h in
      ground (arith, e, at_k)
  | inr e ↦ ground (arith, e)
]

unknown_lem :
    (k r : ℕ) (known : List ℕ) (there kept : Bool)
    → contains r known ≡ false
    → ((there && contains k known) || kept) ≡ ((((r == k) || there) && contains k known) || kept)
unknown_lem k r known there kept h = elim (Bool-cases (r == k)) [
  | inl e ↦
      let at_k : contains k known ≡ false =
        ap (λ y. contains y known) (sym ((==_iff r k).0 e)) ∙ h in
      ground (arith, e, at_k)
  | inr e ↦ ground (arith, e)
]

insert_known-contains :
    (k : ℕ) (known : List ℕ) (ref_id : ℕ → ℕ) (ids keys : List ℕ)
    → contains k (insert_known known ref_id ids keys)
      ≡ ((contains k (map ref_id ids) && contains k known) || contains k keys)
unfolding insert_known
insert_known-contains k known ref_id [] keys = refl
insert_known-contains k known ref_id (id ∷ ids) keys =
    let r = ref_id id in
    let there = contains k (map ref_id ids) in
    elim (Bool-cases (contains r known)) [
      | inl e ↦
          ap
            (λ b.
              contains k (insert_known known ref_id ids (if b then index_insert r keys else keys)))
            e
          ∙ (insert_known-contains k known ref_id ids (index_insert r keys)
              ∙ (ap (λ b. (there && contains k known) || b) (index_insert-contains k r keys)
                  ∙ known_lem k r known there (contains k keys) e))
      | inr e ↦
          ap
            (λ b.
              contains k (insert_known known ref_id ids (if b then index_insert r keys else keys)))
            e
          ∙ (insert_known-contains k known ref_id ids keys
              ∙ unknown_lem k r known there (contains k keys) e)
    ]

-- The references that are cited are those of the document's cites that the processor knows.
cited_keys-contains :
    (db : Document) (k : ℕ)
    → contains k (cited_keys db)
      ≡ (contains k (map db.ref_id (all_cite_ids db)) && contains k db.all_keys)
unfolding cited_keys
cited_keys-contains db k =
    insert_known-contains k db.all_keys db.ref_id (all_cite_ids db) [] ∙ ground arith

common-contains :
    (k : ℕ) (xs other : List ℕ) → contains k (common xs other) ≡ (contains k xs && contains k other)
unfolding common
common-contains k [] other = refl
common-contains k (x ∷ xs) other = elim (Bool-cases (contains x other)) [
  | inl e ↦
      ap (λ b. contains k (if b then x ∷ common xs other else common xs other)) e
      ∙ (ap (λ b. (x == k) || b) (common-contains k xs other)
          ∙ (ground arith ∙ (known_lem k x other (contains k xs) false e ∙ ground arith)))
  | inr e ↦
      ap (λ b. contains k (if b then x ∷ common xs other else common xs other)) e
      ∙ (common-contains k xs other
          ∙ (ground arith ∙ (unknown_lem k x other (contains k xs) false e ∙ ground arith)))
]

-- the references that the document asks for, cited or not
abbrev pub asked_for : Uncited → ℕ → Bool
asked_for all_uncited k = true
asked_for (enumerated specific) k = contains k specific

participants-contains :
    (k : ℕ) (all cited : List ℕ) (u : Uncited)
    → contains k (participants all cited u)
      ≡ (contains k cited || (contains k all && asked_for u k))
unfolding participants
participants-contains k all cited all_uncited = index_extend-contains k all cited ∙ ground arith
participants-contains k all cited (enumerated specific) =
    index_extend-contains k (common specific all) cited
    ∙ (ap (λ b. b || contains k cited) (common-contains k specific all) ∙ ground arith)

-- The references of the bibliography are those that the processor knows and that are cited or asked
-- for.
disamb_participants-contains :
    (db : Document) (k : ℕ)
    → contains k (disamb_participants db) ≡ (
        contains k db.all_keys
        && (contains k (map db.ref_id (all_cite_ids db)) || asked_for db.uncited_keys k))
unfolding disamb_participants
disamb_participants-contains db k =
    participants-contains k db.all_keys (cited_keys db) db.uncited_keys
    ∙ (ap (λ b. b || (contains k db.all_keys && asked_for db.uncited_keys k))
          (cited_keys-contains db k)
        ∙ ground arith)
