-- ===== src/Memory/Record.antt =====
-- The rows of the memories (app/mneme/memoria/server/models/canonical_memory.py, memory_revision.py,
-- memory_candidate.py, evidence.py), less the columns that the reconciliation neither writes nor
-- reads, and what Python gives to it. `F` is the type of floating-point numbers, `V` that of
-- embeddings.
use reminder.Prelude.Failing.{Attempt}
pub use reminder.Prelude.Failing.{ok, raised, ◌>>=◌, ◌>>◌}
use reminder.Prelude.{ℕ, String, Bool, true, false, Option, none, some, List, ◌==◌}

pub data Sensitivity : Type 0 where
  unknown low sensitive secret : Sensitivity

pub data MemoryStatus : Type 0 where
  active superseded invalidated : MemoryStatus

pub data CandidateStatus : Type 0 where
  pending promoted rejected expired : CandidateStatus

pub record CanonicalMemory (F : Type 0) : Type 0 where
  pub memory_id : String
  pub owner_id : ℕ
  pub knowledge_base_id : Option String
  pub memory_type : String
  pub subject : String
  pub predicate : String
  pub value : String
  pub fingerprint : String
  pub confidence : F
  pub sensitivity : Sensitivity
  pub status : MemoryStatus
  pub active_revision_id : String

pub record MemoryRevision (V : Type 0) : Type 0 where
  pub revision_id : String
  pub memory_id : String
  pub owner_id : ℕ
  pub knowledge_base_id : Option String
  pub subject : String
  pub predicate : String
  pub value : String
  pub fingerprint : String
  pub embedding : Option V
  pub valid_from : ℕ
  pub valid_to : Option ℕ
  pub reason : String
  pub actor : String

pub record MemoryCandidate (F : Type 0) : Type 0 where
  pub candidate_id : String
  pub owner_id : ℕ
  pub knowledge_base_id : Option String
  pub memory_type : String
  pub subject : String
  pub predicate : String
  pub value : String
  pub fingerprint : String
  pub confidence : F
  pub sensitivity : Sensitivity
  pub status : CandidateStatus
  pub extraction_provenance : String
  pub conflicting_memory_id : Option String
  pub conflicting_revision_id : Option String
  pub decided_at : Option ℕ

pub record Evidence : Type 0 where
  pub evidence_id : String
  pub identity_hash : String
  pub owner_id : ℕ
  pub knowledge_base_id : Option String
  pub source_type : String
  pub source_id : String
  pub source_document_id : Option String
  pub source_version : String
  pub minimum_text : String
  pub content_hash : String
  pub occurred_at : ℕ

pub record EvidenceInput : Type 0 where
  pub source_type : String
  pub source_id : String
  pub source_version : String
  pub minimum_text : String
  pub content_hash : String
  pub occurred_at : ℕ
  pub source_document_id : Option String

-- The tables; the last two hold the pairs of an evidence with its candidate or revision.
pub record Db (F V : Type 0) : Type 0 where
  pub memories : List (CanonicalMemory F)
  pub revisions : List (MemoryRevision V)
  pub candidates : List (MemoryCandidate F)
  pub evidence : List Evidence
  pub candidate_evidence : List (String × String)
  pub revision_evidence : List (String × String)

-- `database_error` is a violated key or unique index; what raises rolls its transaction back.
pub data Failure : Type 0 where
  value_error lookup_error provenance_error runtime_error database_error : Failure

abbrev pub Result {ℓ} : Type ℓ → Type ℓ
Result A = Attempt Failure A

-- `if not test: raise ...`
abbrev pub require : Failure → Bool → Result (Unit {0})
require e true = ok tt
require e false = raised e

abbrev pub found_or {ℓ} : {A : Type ℓ} → Failure → Option A → Result A
found_or e none = raised e
found_or e (some a) = ok a

-- knowledge_base_id = :id, or IS NULL
abbrev pub same_base : Option String → Option String → Bool
same_base none none = true
same_base (some a) (some b) = a == b
same_base _ _ = false

-- One value of the list that `_canonical_identity` dumps.
pub data IdentityValue : Type 0 where
  number : ℕ → IdentityValue
  text : String → IdentityValue
  null : IdentityValue

-- Python's texts and floats, hashlib, json, and the embedding service (`none` where it raises).
pub record Python (F V : Type 0) : Type 0 where
  pub strip : String → String
  pub split : String → List String
  pub join : String → List String → String
  pub casefold : String → String
  pub unit_separator : String
  pub sha256 : String → String
  pub dumps : (tag : String) → List IdentityValue → String
  pub leb_float : F → F → Bool
  pub sub : F → F → F
  pub mul : F → F → F
  pub zero : F
  pub one : F
  pub auto_promotion_confidence : F
  pub embed_memory : (subject predicate value : String) → Option V
