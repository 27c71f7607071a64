-- ===== src/Memory/Reconcile.antt =====
-- `reconcile_candidate`.
use reminder.Prelude.{
  ℕ, String, Bool, true, false, Option, none, some, List, [], ◌∷◌, ltb, ◌==◌, some_of,
}
use reminder.Memory.Record.{
  Sensitivity, CandidateStatus, pending, promoted, CanonicalMemory, MemoryRevision, MemoryCandidate,
  EvidenceInput, Db, value_error, Result, ok, ◌>>=◌, ◌>>◌, require, Python,
}
use reminder.Memory.Policy.{
  PolicyDecision, promote, reject, is_confidence, classify_candidate, combined_confidence,
  combined_sensitivity,
}
use reminder.Memory.Tables.{
  find_active_memory, find_conflicting_memory, load_active_revision, write_memory, insert_candidate,
}
use reminder.Memory.Evidence.{persist_evidence, attach_revision_evidence, attach_candidate_evidence}
use reminder.Memory.Revise.{
  Statement, Change, create_memory, revise_memory, normalized, fingerprint_of,
}

abbrev pub memory_types : List String
memory_types =
    "preference"
    ∷ ("profile_fact" ∷ ("project_context" ∷ ("decision" ∷ ("goal" ∷ ("constraint" ∷ [])))))

-- The arguments of a call, with the ids that it draws and its instant. `extraction_provenance` is the
-- stored JSON.
pub record Request (F : Type 0) : Type 0 where
  pub owner_id : ℕ
  pub knowledge_base_id : Option String
  pub memory_type : String
  pub statement : Statement
  pub confidence : F
  pub sensitivity : Sensitivity
  pub evidence : List (String × EvidenceInput)
  pub extraction_provenance : String
  pub explicit_request : Bool
  pub actor : String
  pub candidate_id : String
  pub memory_id : String
  pub revision_id : String
  pub now : ℕ

-- The active memories that the slot of the request meets.
pub data Slot (F V : Type 0) : Type 0 where
  compatible : CanonicalMemory F → MemoryRevision V → Slot F V
  conflicting : CanonicalMemory F → MemoryRevision V → Slot F V
  vacant : Slot F V

pub record ReconciliationResult (F : Type 0) : Type 0 where
  pub decision : PolicyDecision
  pub candidate : Option (MemoryCandidate F)
  pub memory : Option (CanonicalMemory F)
  pub reinforced : Bool

module _ {F V : Type 0} where
  abbrev pub is_conflict : Slot F V → Bool
  is_conflict (conflicting m r) = true
  is_conflict (compatible m r) = false
  is_conflict vacant = false

  abbrev pub conflicting_memory : Slot F V → Option String
  conflicting_memory (conflicting m r) = some m.memory_id
  conflicting_memory (compatible m r) = none
  conflicting_memory vacant = none

  abbrev pub conflicting_revision : Slot F V → Option String
  conflicting_revision (conflicting m r) = some r.revision_id
  conflicting_revision (compatible m r) = none
  conflicting_revision vacant = none

  -- The two queries, each with the active revision of what it found.
  abbrev pub with_conflict :
      (owner_id : ℕ)
      → (knowledge_base_id : Option String) → Option (CanonicalMemory F)
      → Db F V
      → Result (Slot F V)
  with_conflict owner_id knowledge_base_id none db = ok vacant
  with_conflict owner_id knowledge_base_id (some m) db = do
    revision ← load_active_revision m owner_id knowledge_base_id db.revisions
    ok (conflicting m revision)

  abbrev pub with_compatible :
      (owner_id : ℕ)
      → (knowledge_base_id : Option String) → (memory_type : String) → Statement
      → (fingerprint : String) → Option (CanonicalMemory F)
      → Db F V
      → Result (Slot F V)
  with_compatible owner_id knowledge_base_id memory_type s fingerprint none db =
      with_conflict owner_id knowledge_base_id
        (find_conflicting_memory owner_id knowledge_base_id memory_type s.subject s.predicate
          fingerprint db.memories)
        db
  with_compatible owner_id knowledge_base_id memory_type s fingerprint (some m) db = do
    revision ← load_active_revision m owner_id knowledge_base_id db.revisions
    ok (compatible m revision)

  unfoldable pub look_up :
      (owner_id : ℕ)
      → (knowledge_base_id : Option String) → (memory_type : String) → Statement
      → (fingerprint : String) → Db F V
      → Result (Slot F V)
  unfolding find_active_memory find_conflicting_memory load_active_revision
  look_up owner_id knowledge_base_id memory_type s fingerprint db =
      with_compatible owner_id knowledge_base_id memory_type s fingerprint
        (find_active_memory owner_id knowledge_base_id fingerprint db.memories) db

module _ {F V : Type 0} (py : Python F V) where
  abbrev pub supported : CanonicalMemory F → F → Sensitivity → CanonicalMemory F
  supported memory confidence sensitivity = record memory {
    confidence = combined_confidence py memory.confidence confidence;
    sensitivity = combined_sensitivity memory.sensitivity sensitivity;
  }

  -- `if attached`
  abbrev pub support_if :
      Bool
      → CanonicalMemory F
      → (confidence : F) → Sensitivity
      → Db F V
      → Result ((Bool × CanonicalMemory F) × Db F V)
  support_if false memory confidence sensitivity db = ok ((false, memory), db)
  support_if true memory confidence sensitivity db = do
    memories ← write_memory (supported memory confidence sensitivity) db.memories
    ok ((true, supported memory confidence sensitivity), record db { memories = memories })

  -- New evidence for the active revision of a memory adds to its confidence; known evidence does not.
  unfoldable pub reinforce :
      CanonicalMemory F
      → MemoryRevision V
      → (confidence : F) → Sensitivity
      → (evidence_ids : List String) → (owner_id : ℕ) → (knowledge_base_id : Option String) → Db F V
      → Result ((Bool × CanonicalMemory F) × Db F V)
  unfolding attach_revision_evidence write_memory
  reinforce memory revision confidence sensitivity evidence_ids owner_id knowledge_base_id db = do
    attached ←
        attach_revision_evidence revision.revision_id evidence_ids owner_id knowledge_base_id db
    support_if (ltb 0 attached.0) memory confidence sensitivity attached.1

  abbrev pub status_of : PolicyDecision → CandidateStatus
  status_of promote = promoted
  status_of _ = pending

  abbrev pub decided_at_of : PolicyDecision → ℕ → Option ℕ
  decided_at_of promote now = some now
  decided_at_of _ now = none

  abbrev pub new_candidate : Request F → Statement → PolicyDecision → Slot F V → MemoryCandidate F
  new_candidate q s decision slot = record {
    candidate_id = q.candidate_id;
    owner_id = q.owner_id;
    knowledge_base_id = q.knowledge_base_id;
    memory_type = q.memory_type;
    subject = s.subject;
    predicate = s.predicate;
    value = s.value;
    fingerprint = fingerprint_of py s;
    confidence = q.confidence;
    sensitivity = q.sensitivity;
    status = status_of decision;
    extraction_provenance = q.extraction_provenance;
    conflicting_memory_id = conflicting_memory slot;
    conflicting_revision_id = conflicting_revision slot;
    decided_at = decided_at_of decision q.now;
  }

  abbrev pub reason_of : (explicit_request : Bool) → String
  reason_of true = "explicit_request"
  reason_of false = "automatic_promotion"

  abbrev pub change_of : Request F → (reason : String) → Change
  change_of q reason = record {
    reason = reason;
    actor = q.actor;
    revision_id = q.revision_id;
    now = q.now;
  }

  -- The promotion of the stored candidate.
  unfoldable pub promote_candidate :
      Request F
      → Statement
      → Slot F V
      → (evidence_ids : List String) → Db F V
      → Result (CanonicalMemory F × Db F V)
  unfolding create_memory revise_memory
  promote_candidate q s (conflicting m r) evidence_ids db =
      revise_memory py m.memory_id q.owner_id q.knowledge_base_id s (some q.confidence)
        q.sensitivity (change_of q "explicit_request_replacement") evidence_ids db
  promote_candidate q s _ evidence_ids db =
      create_memory py q.memory_id q.owner_id q.knowledge_base_id q.memory_type s
        (fingerprint_of py s) q.confidence q.sensitivity
        (change_of q (reason_of q.explicit_request)) evidence_ids db

  abbrev pub decide :
      Request F
      → Statement
      → PolicyDecision
      → MemoryCandidate F
      → Slot F V
      → (evidence_ids : List String) → Db F V
      → Result (ReconciliationResult F × Db F V)
  decide q s promote candidate slot evidence_ids db = do
    promoted_to ← promote_candidate q s slot evidence_ids db
    ok (
      record {
        decision = promote;
        candidate = some candidate;
        memory = some promoted_to.0;
        reinforced = false;
      },
      promoted_to.1,
    )
  decide q s decision candidate slot evidence_ids db = ok (
    record { decision = decision; candidate = some candidate; memory = none; reinforced = false },
    db,
  )

  -- The candidate of the request, stored before anything is promoted.
  unfoldable pub store_candidate :
      Request F
      → Statement
      → PolicyDecision
      → Slot F V
      → (evidence_ids : List String) → Db F V
      → Result (ReconciliationResult F × Db F V)
  unfolding insert_candidate attach_candidate_evidence promote_candidate
  store_candidate q s decision slot evidence_ids db = do
    let candidate = new_candidate q s decision slot
    candidates ← insert_candidate candidate db.candidates
    attached ←
        attach_candidate_evidence candidate.candidate_id evidence_ids q.owner_id q.knowledge_base_id
          (record db { candidates = candidates })
    decide q s decision candidate slot evidence_ids attached.1

  -- The two ways behind the decision.
  abbrev pub carry_out :
      Request F
      → Statement
      → PolicyDecision
      → Slot F V
      → (evidence_ids : List String) → Db F V
      → Result (ReconciliationResult F × Db F V)
  carry_out q s promote (compatible m r) evidence_ids db = do
    done ← reinforce m r q.confidence q.sensitivity evidence_ids q.owner_id q.knowledge_base_id db
    ok (
      record {
        decision = promote;
        candidate = none;
        memory = some done.0.1;
        reinforced = done.0.0;
      },
      done.1,
    )
  carry_out q s decision slot evidence_ids db = store_candidate q s decision slot evidence_ids db

  abbrev pub rejected_result : ReconciliationResult F
  rejected_result = record {
    decision = reject;
    candidate = none;
    memory = none;
    reinforced = false;
  }

  abbrev pub unless_rejected :
      PolicyDecision
      → Result (ReconciliationResult F × Db F V)
      → Db F V
      → Result (ReconciliationResult F × Db F V)
  unless_rejected reject m db = ok (rejected_result, db)
  unless_rejected _ m db = m

  -- Past the first look at the policy.
  unfoldable pub reconcile_admitted : Request F → Db F V → Result (ReconciliationResult F × Db F V)
  unfolding look_up persist_evidence reinforce store_candidate
  reconcile_admitted q db = do
    require value_error (is_confidence py q.confidence)
    require value_error (some_of (λ t. t == q.memory_type) memory_types)
    let s = normalized py q.statement
    slot ← look_up q.owner_id q.knowledge_base_id q.memory_type s (fingerprint_of py s) db
    decision ←
        classify_candidate py q.sensitivity q.confidence q.explicit_request (is_conflict slot)
    stored ← persist_evidence py q.owner_id q.knowledge_base_id q.evidence db.evidence
    carry_out q s decision slot stored.0 (record db { evidence = stored.1 })

  unfoldable pub reconcile_candidate : Request F → Db F V → Result (ReconciliationResult F × Db F V)
  unfolding reconcile_admitted
  reconcile_candidate q db = do
    preliminary ← classify_candidate py q.sensitivity q.confidence q.explicit_request false
    unless_rejected preliminary (reconcile_admitted q db) db
