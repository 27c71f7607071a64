-- ===== src/Memory/Evidence.antt =====
-- `_persist_evidence`, `validate_evidence_scope` and the attachment of evidence.
use reminder.Prelude.{
  ℕ, suc, String, Bool, not, ◌&&◌, Option, none, some, is_some, List, [], ◌∷◌, ◌++◌, map, eqb, ◌==◌,
  if◌then◌else◌, find_row, update_rows, some_of, keep, distinct,
}
use reminder.Memory.Record.{
  MemoryRevision, Evidence, EvidenceInput, Db, value_error, provenance_error, runtime_error,
  database_error, Result, ok, raised, ◌>>=◌, ◌>>◌, require, found_or, same_base, Python,
}
use reminder.Memory.Policy.{evidence_identity}
use reminder.Memory.Tables.{
  in_scope, only, first_of, get_revision, get_candidate, load_candidate_for_update,
}

unfoldable pub get_evidence : String → List Evidence → Option Evidence
unfolding find_row
get_evidence = find_row (λ e. e.evidence_id)

abbrev pub has_identity : String → Evidence → Bool
has_identity identity_hash e = e.identity_hash == identity_hash

module _ {F V : Type 0} (py : Python F V) where
  abbrev pub evidence_of :
      (evidence_id : String)
      → (owner_id : ℕ) → (knowledge_base_id : Option String) → EvidenceInput
      → Evidence
  evidence_of evidence_id owner_id knowledge_base_id item = record {
    evidence_id = evidence_id;
    identity_hash =
        evidence_identity py owner_id knowledge_base_id item.source_type item.source_id
          item.source_version item.content_hash;
    owner_id = owner_id;
    knowledge_base_id = knowledge_base_id;
    source_type = item.source_type;
    source_id = item.source_id;
    source_document_id = item.source_document_id;
    source_version = item.source_version;
    minimum_text = item.minimum_text;
    content_hash = item.content_hash;
    occurred_at = item.occurred_at;
  }

  -- INSERT ... ON CONFLICT (identity_hash) DO NOTHING
  abbrev pub insert_evidence : Evidence → List Evidence → Result (List Evidence)
  insert_evidence e rows =
      if some_of (has_identity e.identity_hash) rows
      then ok rows
      else (if is_some (get_evidence e.evidence_id rows)
          then raised database_error
          else ok (rows ++ (e ∷ [])))

  -- The document of an evidence: set once, and not changed.
  abbrev pub with_document : Option String → Evidence → List Evidence → Result (List Evidence)
  with_document none e rows = ok rows
  with_document (some document) e rows = elim e.source_document_id [
    | none ↦ ok (
        update_rows (λ x. x.evidence_id) e.evidence_id
          (λ x. record x { source_document_id = some document }) rows)
    | some present ↦ if present == document then ok rows else raised provenance_error
  ]

  -- One round of the loop: the id of the durable row, and the table.
  unfoldable pub persist_one :
      (evidence_id : String)
      → (owner_id : ℕ) → (knowledge_base_id : Option String) → EvidenceInput
      → List Evidence
      → Result (String × List Evidence)
  unfolding get_evidence first_of update_rows
  persist_one evidence_id owner_id knowledge_base_id item rows = do
    let row = evidence_of evidence_id owner_id knowledge_base_id item
    inserted ← insert_evidence row rows
    found ←
        found_or runtime_error
          (first_of (λ e. has_identity row.identity_hash e && eqb e.owner_id owner_id) inserted)
    require value_error (same_base found.knowledge_base_id knowledge_base_id)
    written ← with_document item.source_document_id found inserted
    ok (found.evidence_id, written)

  -- Each input comes with the id that a new row of it takes.
  unfoldable pub persist_evidence :
      (owner_id : ℕ)
      → (knowledge_base_id : Option String) → List (String × EvidenceInput)
      → List Evidence
      → Result (List String × List Evidence)
  unfolding persist_one
  persist_evidence owner_id knowledge_base_id [] rows = ok ([], rows)
  persist_evidence owner_id knowledge_base_id ((evidence_id, item) ∷ inputs) rows = do
    first ← persist_one evidence_id owner_id knowledge_base_id item rows
    others ← persist_evidence owner_id knowledge_base_id inputs first.1
    ok (first.0 ∷ others.0, others.1)

abbrev pub is_scoped :
    (owner_id : ℕ) → (knowledge_base_id : Option String) → List Evidence → String → Bool
is_scoped owner_id knowledge_base_id rows i = is_some (
    only (λ e. in_scope owner_id knowledge_base_id e.owner_id e.knowledge_base_id)
      (get_evidence i rows))

unfoldable pub validate_evidence_scope :
    (evidence_ids : List String)
    → (owner_id : ℕ) → (knowledge_base_id : Option String) → List Evidence
    → Result (List String)
unfolding distinct get_evidence
validate_evidence_scope evidence_ids owner_id knowledge_base_id rows =
    if some_of (λ i. not (is_scoped owner_id knowledge_base_id rows i)) (distinct [] evidence_ids)
    then raised value_error
    else ok (distinct [] evidence_ids)

abbrev pub is_pair : String → String → String × String → Bool
is_pair key evidence_id (k, e) = (k == key) && (e == evidence_id)

-- The loop of both attachments: how many pairs were new, and the pairs.
unfoldable pub attach_pairs :
    String → (evidence_ids : List String) → List (String × String) → ℕ × List (String × String)
attach_pairs key [] rows = (0, rows)
attach_pairs key (i ∷ ids) rows =
    let present = some_of (is_pair key i) rows in
    let rest = attach_pairs key ids (if present then rows else rows ++ ((key, i) ∷ [])) in
    (if present then rest.0 else suc rest.0, rest.1)

abbrev pub is_of : String → String × String → Bool
is_of candidate_id (c, e) = c == candidate_id

module _ {F V : Type 0} where
  abbrev pub load_revision :
      String
      → (owner_id : ℕ) → (knowledge_base_id : Option String) → Db F V
      → Option (MemoryRevision V)
  load_revision i owner_id knowledge_base_id db =
      only (λ r. in_scope owner_id knowledge_base_id r.owner_id r.knowledge_base_id)
        (get_revision i db.revisions)

  unfoldable pub attach_revision_evidence :
      (revision_id : String)
      → (evidence_ids : List String) → (owner_id : ℕ) → (knowledge_base_id : Option String) → Db F V
      → Result (ℕ × Db F V)
  unfolding get_revision validate_evidence_scope attach_pairs
  attach_revision_evidence revision_id evidence_ids owner_id knowledge_base_id db = do
    revision ← found_or value_error (load_revision revision_id owner_id knowledge_base_id db)
    scoped_ids ← validate_evidence_scope evidence_ids owner_id knowledge_base_id db.evidence
    let attached = attach_pairs revision_id scoped_ids db.revision_evidence
    ok (attached.0, record db { revision_evidence = attached.1 })

  unfoldable pub attach_candidate_evidence :
      (candidate_id : String)
      → (evidence_ids : List String) → (owner_id : ℕ) → (knowledge_base_id : Option String) → Db F V
      → Result (ℕ × Db F V)
  unfolding get_candidate validate_evidence_scope attach_pairs
  attach_candidate_evidence candidate_id evidence_ids owner_id knowledge_base_id db = do
    candidate ←
        found_or value_error (load_candidate_for_update candidate_id owner_id knowledge_base_id db)
    scoped_ids ← validate_evidence_scope evidence_ids owner_id knowledge_base_id db.evidence
    let attached = attach_pairs candidate_id scoped_ids db.candidate_evidence
    ok (attached.0, record db { candidate_evidence = attached.1 })

  unfoldable pub candidate_evidence_ids :
      (candidate_id : String)
      → (owner_id : ℕ) → (knowledge_base_id : Option String) → Db F V
      → Result (List String)
  unfolding get_candidate
  candidate_evidence_ids candidate_id owner_id knowledge_base_id db = do
    candidate ←
        found_or value_error (load_candidate_for_update candidate_id owner_id knowledge_base_id db)
    ok (map (λ p. p.1) (keep (is_of candidate_id) db.candidate_evidence))
