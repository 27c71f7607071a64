-- ===== src/Memory/Tables.antt =====
-- The queries and insertions of app/mneme/memoria/server/repositories/memories.py. The locks of a row
-- or of a slot only order the transactions, which are steps here.
use reminder.Prelude.{
  ℕ, String, Bool, true, false, not, ◌&&◌, Option, none, some, is_some, List, [], ◌∷◌, ◌++◌, eqb,
  ◌==◌, if◌then◌else◌, find_row, update_rows, some_of,
}
use reminder.Memory.Record.{
  MemoryStatus, active, CanonicalMemory, MemoryRevision, MemoryCandidate, Db, value_error,
  database_error, Result, ok, raised, found_or, same_base,
}

abbrev pub is_active : MemoryStatus → Bool
is_active active = true
is_active _ = false

-- `_scope`: whether a row with this owner and knowledge base belongs to the caller
abbrev pub in_scope :
    (owner_id : ℕ) → (knowledge_base_id : Option String) → ℕ → Option String → Bool
in_scope owner_id knowledge_base_id owner base =
    eqb owner owner_id && same_base base knowledge_base_id

-- One more condition on the row of a key.
abbrev pub only : {A : Type 0} → (A → Bool) → Option A → Option A
only p none = none
only p (some a) = if p a then some a else none

-- The first row that a condition selects.
unfoldable pub first_of : {A : Type 0} → (A → Bool) → List A → Option A
first_of p [] = none
first_of p (x ∷ xs) = let rest = first_of p xs in if p x then some x else rest

module _ {F : Type 0} where
  unfoldable pub get_memory : String → List (CanonicalMemory F) → Option (CanonicalMemory F)
  unfolding find_row
  get_memory = find_row (λ m. m.memory_id)

  unfoldable pub get_candidate : String → List (MemoryCandidate F) → Option (MemoryCandidate F)
  unfolding find_row
  get_candidate = find_row (λ c. c.candidate_id)

  abbrev pub has_fingerprint :
      (owner_id : ℕ)
      → (knowledge_base_id : Option String) → (fingerprint : String) → CanonicalMemory F
      → Bool
  has_fingerprint owner_id knowledge_base_id fingerprint m =
      in_scope owner_id knowledge_base_id m.owner_id m.knowledge_base_id
      && (m.fingerprint == fingerprint)
      && is_active m.status

  unfoldable pub find_active_memory :
      (owner_id : ℕ)
      → (knowledge_base_id : Option String) → (fingerprint : String) → List (CanonicalMemory F)
      → Option (CanonicalMemory F)
  unfolding first_of
  find_active_memory owner_id knowledge_base_id fingerprint =
      first_of (has_fingerprint owner_id knowledge_base_id fingerprint)

  abbrev pub is_conflicting :
      (owner_id : ℕ)
      → (knowledge_base_id : Option String) → (memory_type subject predicate fingerprint : String)
      → CanonicalMemory F
      → Bool
  is_conflicting owner_id knowledge_base_id memory_type subject predicate fingerprint m =
      in_scope owner_id knowledge_base_id m.owner_id m.knowledge_base_id
      && (m.memory_type == memory_type)
      && (m.subject == subject)
      && (m.predicate == predicate)
      && not (m.fingerprint == fingerprint)
      && is_active m.status

  unfoldable pub find_conflicting_memory :
      (owner_id : ℕ)
      → (knowledge_base_id : Option String) → (memory_type subject predicate fingerprint : String)
      → List (CanonicalMemory F)
      → Option (CanonicalMemory F)
  unfolding first_of
  find_conflicting_memory owner_id knowledge_base_id memory_type subject predicate fingerprint =
      first_of (is_conflicting owner_id knowledge_base_id memory_type subject predicate fingerprint)

  -- The unique indexes on the fingerprints of active memories.
  abbrev pub same_active : CanonicalMemory F → CanonicalMemory F → Bool
  same_active m n =
      not (n.memory_id == m.memory_id)
      && is_active m.status
      && has_fingerprint m.owner_id m.knowledge_base_id m.fingerprint n

  unfoldable pub insert_memory :
      CanonicalMemory F → List (CanonicalMemory F) → Result (List (CanonicalMemory F))
  unfolding get_memory
  insert_memory m rows =
      if is_some (get_memory m.memory_id rows)
      then raised database_error
      else (if some_of (same_active m) rows then raised database_error else ok (rows ++ (m ∷ [])))

  -- The row of a loaded memory is written back.
  unfoldable pub write_memory :
      CanonicalMemory F → List (CanonicalMemory F) → Result (List (CanonicalMemory F))
  unfolding update_rows
  write_memory m rows =
      if some_of (same_active m) rows
      then raised database_error
      else ok (update_rows (λ n. n.memory_id) m.memory_id (λ n. m) rows)

  unfoldable pub insert_candidate :
      MemoryCandidate F → List (MemoryCandidate F) → Result (List (MemoryCandidate F))
  unfolding get_candidate
  insert_candidate c rows =
      if is_some (get_candidate c.candidate_id rows)
      then raised database_error
      else ok (rows ++ (c ∷ []))

module _ {V : Type 0} where
  unfoldable pub get_revision : String → List (MemoryRevision V) → Option (MemoryRevision V)
  unfolding find_row
  get_revision = find_row (λ r. r.revision_id)

  -- The unique index on the open revisions of a memory is no test here: nothing refuses a second open
  -- revision, so that it is the operations that have to close the old one first.
  unfoldable pub insert_revision :
      MemoryRevision V → List (MemoryRevision V) → Result (List (MemoryRevision V))
  unfolding get_revision
  insert_revision r rows =
      if is_some (get_revision r.revision_id rows)
      then raised database_error
      else ok (rows ++ (r ∷ []))

module _ {F V : Type 0} where
  abbrev pub load_memory_for_update :
      String
      → (owner_id : ℕ) → (knowledge_base_id : Option String) → Db F V
      → Option (CanonicalMemory F)
  load_memory_for_update i owner_id knowledge_base_id db =
      only (λ m. in_scope owner_id knowledge_base_id m.owner_id m.knowledge_base_id)
        (get_memory i db.memories)

  abbrev pub load_candidate_for_update :
      String
      → (owner_id : ℕ) → (knowledge_base_id : Option String) → Db F V
      → Option (MemoryCandidate F)
  load_candidate_for_update i owner_id knowledge_base_id db =
      only (λ c. in_scope owner_id knowledge_base_id c.owner_id c.knowledge_base_id)
        (get_candidate i db.candidates)

  abbrev pub is_open_revision :
      CanonicalMemory F
      → (owner_id : ℕ) → (knowledge_base_id : Option String) → MemoryRevision V
      → Bool
  is_open_revision memory owner_id knowledge_base_id r =
      (r.memory_id == memory.memory_id)
      && in_scope owner_id knowledge_base_id r.owner_id r.knowledge_base_id
      && not (is_some r.valid_to)

  unfoldable pub load_active_revision :
      CanonicalMemory F
      → (owner_id : ℕ) → (knowledge_base_id : Option String) → List (MemoryRevision V)
      → Result (MemoryRevision V)
  unfolding get_revision
  load_active_revision memory owner_id knowledge_base_id rows = found_or value_error (
      only (is_open_revision memory owner_id knowledge_base_id)
        (get_revision memory.active_revision_id rows))
