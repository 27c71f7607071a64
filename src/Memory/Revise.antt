-- ===== src/Memory/Revise.antt =====
-- `_create_memory` and `revise_memory`. The ids that `new_id` draws and the instant are arguments; an
-- id that is taken violates the primary key.
use reminder.Prelude.{ℕ, String, Bool, true, not, Option, none, some, List, update_rows}
use reminder.Memory.Record.{
  Sensitivity, active, CanonicalMemory, MemoryRevision, Db, value_error, lookup_error, Result, ok,
  ◌>>=◌, ◌>>◌, require, found_or, Python,
}
use reminder.Memory.Policy.{is_secret, is_confidence, normalize_memory_text, memory_fingerprint}
use reminder.Memory.Tables.{
  get_memory, load_memory_for_update, load_active_revision, insert_memory, write_memory,
  insert_revision,
}
use reminder.Memory.Evidence.{validate_evidence_scope, attach_revision_evidence}

-- What a memory says.
pub record Statement : Type 0 where
  pub subject : String
  pub predicate : String
  pub value : String

-- Why and by whom, with the id and the instant of the new revision.
pub record Change : Type 0 where
  pub reason : String
  pub actor : String
  pub revision_id : String
  pub now : ℕ

module _ {V : Type 0} where
  abbrev pub close_revision : (now : ℕ) → String → List (MemoryRevision V) → List (MemoryRevision V)
  close_revision now i = update_rows (λ r. r.revision_id) i (λ r. record r { valid_to = some now })

module _ {F V : Type 0} (py : Python F V) where
  abbrev pub new_memory :
      (memory_id revision_id : String)
      → (owner_id : ℕ) → (knowledge_base_id : Option String) → (memory_type : String) → Statement
      → (fingerprint : String) → F
      → Sensitivity
      → CanonicalMemory F
  new_memory memory_id revision_id owner_id knowledge_base_id memory_type s fingerprint confidence
        sensitivity =
      record {
        memory_id = memory_id;
        owner_id = owner_id;
        knowledge_base_id = knowledge_base_id;
        memory_type = memory_type;
        subject = s.subject;
        predicate = s.predicate;
        value = s.value;
        fingerprint = fingerprint;
        confidence = confidence;
        sensitivity = sensitivity;
        status = active;
        active_revision_id = revision_id;
      }

  -- `_revision_embedding` gives none where the service raises.
  abbrev pub new_revision :
      (memory_id : String)
      → (owner_id : ℕ) → (knowledge_base_id : Option String) → Statement
      → (fingerprint : String) → Change
      → MemoryRevision V
  new_revision memory_id owner_id knowledge_base_id s fingerprint change = record {
    revision_id = change.revision_id;
    memory_id = memory_id;
    owner_id = owner_id;
    knowledge_base_id = knowledge_base_id;
    subject = s.subject;
    predicate = s.predicate;
    value = s.value;
    fingerprint = fingerprint;
    embedding = py.embed_memory s.subject s.predicate s.value;
    valid_from = change.now;
    valid_to = none;
    reason = change.reason;
    actor = change.actor;
  }

  unfoldable pub create_memory :
      (memory_id : String)
      → (owner_id : ℕ) → (knowledge_base_id : Option String) → (memory_type : String) → Statement
      → (fingerprint : String) → F
      → Sensitivity
      → Change
      → (evidence_ids : List String) → Db F V
      → Result (CanonicalMemory F × Db F V)
  unfolding insert_memory insert_revision attach_revision_evidence
  create_memory memory_id owner_id knowledge_base_id memory_type s fingerprint confidence
        sensitivity change evidence_ids db =
      do
        let memory =
            new_memory memory_id change.revision_id owner_id knowledge_base_id memory_type s
              fingerprint confidence sensitivity
        memories ← insert_memory memory db.memories
        revisions ←
            insert_revision (new_revision memory_id owner_id knowledge_base_id s fingerprint change)
              db.revisions
        attached ←
            attach_revision_evidence change.revision_id evidence_ids owner_id knowledge_base_id
              (record db { memories = memories; revisions = revisions })
        ok (memory, attached.1)

  abbrev pub normalized : Statement → Statement
  normalized s = record {
    subject = normalize_memory_text py s.subject;
    predicate = normalize_memory_text py s.predicate;
    value = normalize_memory_text py s.value;
  }

  abbrev pub fingerprint_of : Statement → String
  fingerprint_of s = memory_fingerprint py s.subject s.predicate s.value

  -- confidence is not None and not 0 <= confidence <= 1
  abbrev pub confidence_fits : Option F → Bool
  confidence_fits none = true
  confidence_fits (some c) = is_confidence py c

  abbrev pub confidence_or : Option F → F → F
  confidence_or none old = old
  confidence_or (some c) old = c

  abbrev pub revised :
      CanonicalMemory F
      → Statement
      → (fingerprint : String) → Sensitivity
      → Option F
      → (revision_id : String) → CanonicalMemory F
  revised memory s fingerprint sensitivity confidence revision_id = record memory {
    subject = s.subject;
    predicate = s.predicate;
    value = s.value;
    fingerprint = fingerprint;
    sensitivity = sensitivity;
    active_revision_id = revision_id;
    status = active;
    confidence = confidence_or confidence memory.confidence;
  }

  -- From the loaded memory on.
  unfoldable pub revise_loaded :
      CanonicalMemory F
      → (owner_id : ℕ) → (knowledge_base_id : Option String) → Statement
      → Option F
      → Sensitivity
      → Change
      → (evidence_ids : List String) → Db F V
      → Result (CanonicalMemory F × Db F V)
  unfolding load_active_revision validate_evidence_scope update_rows insert_revision
      attach_revision_evidence write_memory
  revise_loaded memory owner_id knowledge_base_id s confidence sensitivity change evidence_ids db =
      do
        old_revision ← load_active_revision memory owner_id knowledge_base_id db.revisions
        scoped_evidence_ids ←
            validate_evidence_scope evidence_ids owner_id knowledge_base_id db.evidence
        revisions ←
            insert_revision
              (new_revision memory.memory_id owner_id knowledge_base_id s (fingerprint_of s) change)
              (close_revision change.now old_revision.revision_id db.revisions)
        attached ←
            attach_revision_evidence change.revision_id scoped_evidence_ids owner_id
              knowledge_base_id (record db { revisions = revisions })
        let memory' = revised memory s (fingerprint_of s) sensitivity confidence change.revision_id
        memories ← write_memory memory' attached.1.memories
        ok (memory', record attached.1 { memories = memories })

  -- The memory is looked up twice, before and behind the lock of its slot, in one transaction.
  unfoldable pub revise_memory :
      (memory_id : String)
      → (owner_id : ℕ) → (knowledge_base_id : Option String) → Statement
      → Option F
      → Sensitivity
      → Change
      → (evidence_ids : List String) → Db F V
      → Result (CanonicalMemory F × Db F V)
  unfolding get_memory revise_loaded
  revise_memory memory_id owner_id knowledge_base_id s confidence sensitivity change evidence_ids
        db =
      do
        require value_error (not (is_secret sensitivity))
        require value_error (confidence_fits confidence)
        memory ←
            found_or lookup_error (load_memory_for_update memory_id owner_id knowledge_base_id db)
        revise_loaded memory owner_id knowledge_base_id (normalized s) confidence sensitivity change
            evidence_ids db
