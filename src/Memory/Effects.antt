-- ===== src/Memory/Effects.antt =====
-- What the operations that do not raise write.
pub use reminder.Prelude.Failing.{bind_ok}
use reminder.Prelude.{
  ℕ, String, ◌≡◌, refl, sym, ap, inl, inr, Bool, true, false, Option, none, some, is_some, List, [],
  ◌∷◌, ◌++◌, if◌then◌else◌, arith, Bool-cases, update_rows,
}
use reminder.Memory.Record.{
  CanonicalMemory, MemoryRevision, MemoryCandidate, Db, Failure, value_error, database_error,
  Result, ok, raised, ◌>>◌, require, found_or,
}
use reminder.Memory.Tables.{
  only, get_memory, get_revision, load_candidate_for_update, load_active_revision, insert_memory,
  write_memory, insert_revision, insert_candidate,
}
use reminder.Memory.Evidence.{
  validate_evidence_scope, load_revision, attach_revision_evidence, attach_candidate_evidence,
}

pub then_ok {ℓ} :
    {B : Type ℓ} (x : Failure) (test : Bool) (k : Result B) {b : B}
    → (require x test >> k) ≡ ok b
    → (test ≡ true) × (k ≡ ok b)
then_ok x true k e = (refl, e)
then_ok x false k e = absurd (ground (arith, e))

pub found_ok {ℓ} :
    {A : Type ℓ} (x : Failure) (o : Option A) {a : A} → found_or x o ≡ ok a → o ≡ some a
found_ok x (some b) e = ground (arith, e)
found_ok x none e = absurd (ground (arith, e))

pub only-some :
    {A : Type 0} (p : A → Bool) (o : Option A) {a : A}
    → only p o ≡ some a
    → (o ≡ some a) × (p a ≡ true)
only-some p (some b) {a} e = elim (Bool-cases (p b)) [
  | inl passes ↦
      let is_it : some b ≡ some a = cc (e, passes) in
      let same : b ≡ a = ground (arith, is_it) in (is_it, cc (passes, same))
  | inr fails ↦ absurd (cc (e, fails))
]
only-some p none e = absurd (ground (arith, e))

guarded_ok {ℓ} :
    {A : Type ℓ} (test : Bool) (x : Failure) (m : Result A) {a : A}
    → (if test then raised x else m) ≡ ok a
    → (test ≡ false) × (m ≡ ok a)
guarded_ok true x m e = absurd (ground (arith, e))
guarded_ok false x m e = (refl, e)

pub ok_eq {ℓ} : {A : Type ℓ} {a b : A} → ◌≡◌ {A = Result A} (ok a) (ok b) → a ≡ b
ok_eq e = ground (arith, e)

absent : {A : Type 0} (o : Option A) → is_some o ≡ false → o ≡ none
absent none e = refl
absent (some a) e = absurd (ground (arith, e))

module _ {F : Type 0} where
  pub insert_memory_ok :
      (m : CanonicalMemory F) (rows : List (CanonicalMemory F)) {later : List (CanonicalMemory F)}
      → insert_memory m rows ≡ ok later
      → (get_memory m.memory_id rows ≡ none) × (rows ++ (m ∷ []) ≡ later)
  unfolding insert_memory
  insert_memory_ok m rows e =
      let (fresh, e1) = guarded_ok _ database_error _ e in
      let (apart, e2) = guarded_ok _ database_error _ e1 in
      (absent (get_memory m.memory_id rows) fresh, ok_eq e2)

  pub write_memory_ok :
      (m : CanonicalMemory F) (rows : List (CanonicalMemory F)) {later : List (CanonicalMemory F)}
      → write_memory m rows ≡ ok later
      → update_rows (λ n. n.memory_id) m.memory_id (λ n. m) rows ≡ later
  unfolding write_memory
  write_memory_ok m rows e = let (apart, e1) = guarded_ok _ database_error _ e in ok_eq e1

  pub insert_candidate_ok :
      (c : MemoryCandidate F) (rows : List (MemoryCandidate F)) {later : List (MemoryCandidate F)}
      → insert_candidate c rows ≡ ok later
      → rows ++ (c ∷ []) ≡ later
  unfolding insert_candidate
  insert_candidate_ok c rows e = let (fresh, e1) = guarded_ok _ database_error _ e in ok_eq e1

module _ {V : Type 0} where
  pub insert_revision_ok :
      (r : MemoryRevision V) (rows : List (MemoryRevision V)) {later : List (MemoryRevision V)}
      → insert_revision r rows ≡ ok later
      → (get_revision r.revision_id rows ≡ none) × (rows ++ (r ∷ []) ≡ later)
  unfolding insert_revision
  insert_revision_ok r rows e =
      let (fresh, e1) = guarded_ok _ database_error _ e in
      (absent (get_revision r.revision_id rows) fresh, ok_eq e1)

module _ {F V : Type 0} where
  pub load_active_revision_ok :
      (m : CanonicalMemory F) (owner_id : ℕ) (base : Option String) (rows : List (MemoryRevision V))
      {r : MemoryRevision V}
      → load_active_revision m owner_id base rows ≡ ok r
      → get_revision m.active_revision_id rows ≡ some r
  unfolding load_active_revision
  load_active_revision_ok m owner_id base rows e =
      (only-some _ (get_revision m.active_revision_id rows) (found_ok value_error _ e)).0

  -- Attaching evidence writes the table of the pairs only.
  pub attach_revision_ok :
      (i : String) (ids : List String) (owner_id : ℕ) (base : Option String) (db : Db F V) {n : ℕ}
      {later : Db F V}
      → attach_revision_evidence i ids owner_id base db ≡ ok (n, later)
      → (later.memories ≡ db.memories)
        × (later.revisions ≡ db.revisions)
        × (later.candidates ≡ db.candidates)
  unfolding attach_revision_evidence
  attach_revision_ok i ids owner_id base db e =
      let (r, e0, e1) = bind_ok (found_or value_error (load_revision i owner_id base db)) _ e in
      let (scoped, e2, e3) = bind_ok (validate_evidence_scope ids owner_id base db.evidence) _ e1 in
      let same = ok_eq e3 in
      (
        ap (λ p. p.1.memories) (sym same),
        ap (λ p. p.1.revisions) (sym same),
        ap (λ p. p.1.candidates) (sym same),
      )

  pub attach_candidate_ok :
      (i : String) (ids : List String) (owner_id : ℕ) (base : Option String) (db : Db F V) {n : ℕ}
      {later : Db F V}
      → attach_candidate_evidence i ids owner_id base db ≡ ok (n, later)
      → (later.memories ≡ db.memories)
        × (later.revisions ≡ db.revisions)
        × (later.candidates ≡ db.candidates)
  unfolding attach_candidate_evidence
  attach_candidate_ok i ids owner_id base db e =
      let (c, e0, e1) =
        bind_ok (found_or value_error (load_candidate_for_update i owner_id base db)) _ e in
      let (scoped, e2, e3) = bind_ok (validate_evidence_scope ids owner_id base db.evidence) _ e1 in
      let same = ok_eq e3 in
      (
        ap (λ p. p.1.memories) (sym same),
        ap (λ p. p.1.revisions) (sym same),
        ap (λ p. p.1.candidates) (sym same),
      )
