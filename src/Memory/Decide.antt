-- ===== src/Memory/Decide.antt =====
-- `confirm_candidate` and `reject_candidate`, and `hard_delete_memory` of
-- app/mneme/memoria/server/repositories/memories.py.
use reminder.Prelude.{ℕ, String, Bool, true, false, not, ◌&&◌, Option, some, List, update_rows}
use reminder.Memory.Record.{
  CandidateStatus, pending, promoted, rejected, CanonicalMemory, MemoryRevision, MemoryCandidate,
  Db, value_error, lookup_error, Result, ok, ◌>>=◌, ◌>>◌, require, found_or, same_base, Python,
}
use reminder.Memory.Policy.{is_secret}
use reminder.Memory.Tables.{get_candidate, load_candidate_for_update}
use reminder.Memory.Evidence.{candidate_evidence_ids}
use reminder.Memory.Revise.{Statement, Change, create_memory, revise_memory}
use reminder.Memory.Reconcile.{Slot, compatible, conflicting, vacant, look_up, reinforce}

abbrev pub is_pending : CandidateStatus → Bool
is_pending pending = true
is_pending _ = false

module _ {F : Type 0} where
  abbrev pub statement_of : MemoryCandidate F → Statement
  statement_of c = record { subject = c.subject; predicate = c.predicate; value = c.value }

  abbrev pub decided : CandidateStatus → (now : ℕ) → MemoryCandidate F → MemoryCandidate F
  decided status now c = record c { status = status; decided_at = some now }

module _ {F V : Type 0} where
  -- The conflict that the candidate was made against.
  abbrev pub is_current : MemoryCandidate F → CanonicalMemory F → MemoryRevision V → Bool
  is_current c m r =
      same_base c.conflicting_memory_id (some m.memory_id)
      && same_base c.conflicting_revision_id (some r.revision_id)

  abbrev pub write_decision : CandidateStatus → (now : ℕ) → String → Db F V → Db F V
  write_decision status now i db = record db {
    candidates = update_rows (λ c. c.candidate_id) i (decided status now) db.candidates;
  }

module _ {F V : Type 0} (py : Python F V) where
  -- The memory that a confirmed candidate becomes.
  unfoldable pub place_candidate :
      (memory_id : String)
      → Change
      → MemoryCandidate F
      → (owner_id : ℕ) → (knowledge_base_id : Option String) → Slot F V
      → (evidence_ids : List String) → Db F V
      → Result (CanonicalMemory F × Db F V)
  unfolding reinforce revise_memory create_memory
  place_candidate memory_id change c owner_id knowledge_base_id (compatible m r) evidence_ids db =
      do
        done ←
            reinforce py m r c.confidence c.sensitivity evidence_ids owner_id knowledge_base_id db
        ok (done.0.1, done.1)
  place_candidate memory_id change c owner_id knowledge_base_id (conflicting m r) evidence_ids db =
      do
        require value_error (is_current c m r)
        revise_memory py m.memory_id owner_id knowledge_base_id (statement_of c) (some c.confidence)
            c.sensitivity (record change { reason = "confirmed_replacement" }) evidence_ids db
  place_candidate memory_id change c owner_id knowledge_base_id vacant evidence_ids db =
      create_memory py memory_id owner_id knowledge_base_id c.memory_type (statement_of c)
        c.fingerprint c.confidence c.sensitivity (record change { reason = "user_confirmation" })
        evidence_ids db

  -- `memory_id` and the revision id of `change` are fresh ids; its reason is set here.
  unfoldable pub confirm_candidate :
      (candidate_id : String)
      → (owner_id : ℕ) → (knowledge_base_id : Option String) → (memory_id : String) → Change
      → Db F V
      → Result (CanonicalMemory F × Db F V)
  unfolding get_candidate candidate_evidence_ids look_up place_candidate update_rows
  confirm_candidate candidate_id owner_id knowledge_base_id memory_id change db = do
    c ← found_or lookup_error (load_candidate_for_update candidate_id owner_id knowledge_base_id db)
    require value_error (is_pending c.status)
    require value_error (not (is_secret c.sensitivity))
    evidence_ids ← candidate_evidence_ids candidate_id owner_id knowledge_base_id db
    slot ← look_up owner_id knowledge_base_id c.memory_type (statement_of c) c.fingerprint db
    placed ← place_candidate memory_id change c owner_id knowledge_base_id slot evidence_ids db
    ok (placed.0, write_decision promoted change.now candidate_id placed.1)

module _ {F V : Type 0} where
  unfoldable pub reject_candidate :
      (candidate_id : String)
      → (owner_id : ℕ) → (knowledge_base_id : Option String) → (now : ℕ) → Db F V
      → Result (MemoryCandidate F × Db F V)
  unfolding get_candidate update_rows
  reject_candidate candidate_id owner_id knowledge_base_id now db = do
    c ← found_or lookup_error (load_candidate_for_update candidate_id owner_id knowledge_base_id db)
    require value_error (is_pending c.status)
    ok (decided rejected now c, write_decision rejected now candidate_id db)
