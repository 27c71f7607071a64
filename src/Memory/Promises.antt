-- ===== src/Memory/Promises.antt =====
-- What the governed memories promise after any operations.
use reminder.Prelude.{
  ℕ, String, ◌≡◌, refl, sym, subst, ap, ◌∙◌, inl, inr, false, Option, none, some, List, [], ◌∷◌,
  arith, find_row, find_row-append_some, ◌==◌, eq_iff, Bool-cases,
}
use reminder.Memory.Record.{
  CandidateStatus, promoted, CanonicalMemory, MemoryRevision, MemoryCandidate, Db, value_error,
  lookup_error, Result, ok, raised, ◌>>=◌, ◌>>◌, require, found_or, Python,
}
use reminder.Memory.Policy.{is_secret}
use reminder.Memory.Tables.{
  get_memory, get_revision, get_candidate, only, in_scope, load_candidate_for_update,
}
use reminder.Memory.Revise.{Change}
use reminder.Memory.Reconcile.{Request, ReconciliationResult, supported, reconcile_candidate}
use reminder.Memory.Decide.{
  is_pending, decided, write_decision, confirm_candidate, reject_candidate,
}
use reminder.Memory.Governed.{HasHead, IsGoverned, found_written, found_other}
use reminder.Memory.Effects.{only-some}
use reminder.Memory.Changes.{IsChange, kept, created, supported_more, revised_to}
use reminder.Memory.Reconciled.{reconcile-Moves, confirm-IsChange}
use reminder.Memory.Histories.{Op, apply_all, IsHealthy, apply_all-IsHealthy}

abbrev pub empty : {F V : Type 0} → Db F V
empty = record {
  memories = [];
  revisions = [];
  candidates = [];
  evidence = [];
  candidate_evidence = [];
  revision_evidence = [];
}

module _ {F V : Type 0} (py : Python F V) where
  pub empty-IsHealthy : IsHealthy {F = F} {V = V} empty
  unfolding get_memory get_revision get_candidate find_row
  empty-IsHealthy = record {
    governed = record {
      heads = λ i m e. absurd (ground (arith, e));
      keyed = tt;
      open_active = λ j r e is_open. absurd (ground (arith, e));
    };
    public = record {
      memories = λ i m e. absurd (ground (arith, e));
      candidates = λ i c e. absurd (ground (arith, e));
    };
  }

  -- After any reconciliations, confirmations, rejections and revisions, every memory has its active
  -- revision in the table, which is open, belongs to the memory and its scope, and says the same
  -- subject, predicate, value and fingerprint as the memory.
  pub memory-HasHead :
      (ops : List (Op F)) (i : String) (m : CanonicalMemory F)
      → get_memory i (apply_all py ops empty).memories ≡ some m
      → HasHead (apply_all py ops empty).revisions m
  memory-HasHead ops = (apply_all-IsHealthy py ops empty empty-IsHealthy).governed.heads

  -- After any reconciliations, confirmations, rejections and revisions, two open revisions of one
  -- memory are the same revision.
  pub one_open_revision :
      (ops : List (Op F)) (j k : String) (r s : MemoryRevision V)
      → get_revision j (apply_all py ops empty).revisions ≡ some r
      → get_revision k (apply_all py ops empty).revisions ≡ some s
      → r.valid_to ≡ none
      → s.valid_to ≡ none
      → r.memory_id ≡ s.memory_id
      → j ≡ k
  one_open_revision ops j k r s er es open_r open_s same =
      let g = (apply_all-IsHealthy py ops (empty {V = V}) empty-IsHealthy).governed in
      let (m, at_m, active_m) = g.open_active j r er open_r in
      let (n, at_n, active_n) = g.open_active k s es open_s in
      let both : some m ≡ some n = cc (at_m, at_n, same) in
      let one : m ≡ n = ground (arith, both) in cc (active_m, active_n, one)

  -- After any reconciliations, confirmations, rejections and revisions, whatever they were given, no
  -- stored memory and no stored candidate is secret.
  pub secrets_not_stored :
      (ops : List (Op F)) (i : String)
      → ((m : CanonicalMemory F)
          → get_memory i (apply_all py ops (empty {V = V})).memories ≡ some m
          → is_secret m.sensitivity ≡ false)
        × ((c : MemoryCandidate F)
            → get_candidate i (apply_all py ops (empty {V = V})).candidates ≡ some c
            → is_secret c.sensitivity ≡ false)
  secrets_not_stored ops i =
      let p = (apply_all-IsHealthy py ops (empty {V = V}) empty-IsHealthy).public in
      (p.memories i, p.candidates i)

  unchanged :
      (db later : Db F V)
      → IsChange py false db.memories later.memories db.revisions later.revisions
      → (i : String) (m : CanonicalMemory F) → get_memory i db.memories ≡ some m
      → (m' : CanonicalMemory F) × (get_memory i later.memories ≡ some m')
        × (m'.value ≡ m.value)
        × (m'.subject ≡ m.subject)
        × (m'.predicate ≡ m.predicate)
        × (m'.active_revision_id ≡ m.active_revision_id)
  unfolding get_memory
  unchanged db later (kept em er) i m found =
      (m, ap (get_memory i) (sym em) ∙ found, refl, refl, refl, refl)
  unchanged db later (created c) i m found = (
    m,
    ap (get_memory i) (sym c.memories)
        ∙ find_row-append_some (λ m. m.memory_id) i db.memories (c.memory ∷ []) found,
    refl,
    refl,
    refl,
    refl,
  )
  unchanged db later (supported_more c) i m found = elim (Bool-cases (c.memory.memory_id == i)) [
    | inl here ↦
        let same_id : c.memory.memory_id ≡ i = (eq_iff c.memory.memory_id i).0 here in
        let both : some c.memory ≡ some m = cc (c.found, found, same_id) in
        let one : c.memory ≡ m = ground (arith, both) in
        let there =
          found_written (λ (m : CanonicalMemory F). m.memory_id) c.memory.memory_id
            (λ n. supported py c.memory c.confidence c.sensitivity) db.memories {r = c.memory}
            (λ n k. refl) c.found in
        (
          supported py c.memory c.confidence c.sensitivity,
          ap (get_memory i) (sym c.memories) ∙ cc (there, same_id),
          ap (λ n. n.value) one,
          ap (λ n. n.subject) one,
          ap (λ n. n.predicate) one,
          ap (λ n. n.active_revision_id) one,
        )
    | inr other ↦ (
      m,
      ap (get_memory i) (sym c.memories)
          ∙ found_other (λ (m : CanonicalMemory F). m.memory_id) c.memory.memory_id i
              (λ n. supported py c.memory c.confidence c.sensitivity) db.memories (λ n k. refl)
              other found,
      refl,
      refl,
      refl,
      refl,
    )
  ]
  unchanged db later (revised_to allowed c) i m found = absurd (ground (arith, allowed))

  -- A reconciliation without an explicit request never overwrites: on tables that operations led to,
  -- where it returns, every memory is still there with its subject, predicate, value and active
  -- revision.
  pub automatic_keeps :
      (ops : List (Op F)) (q : Request F) (later : Db F V) (res : ReconciliationResult F)
      (i : String) (m : CanonicalMemory F)
      → reconcile_candidate py q (apply_all py ops empty) ≡ ok (res, later)
      → q.explicit_request ≡ false
      → get_memory i (apply_all py ops (empty {V = V})).memories ≡ some m
      → (m' : CanonicalMemory F) × (get_memory i later.memories ≡ some m')
        × (m'.value ≡ m.value)
        × (m'.subject ≡ m.subject)
        × (m'.predicate ≡ m.predicate)
        × (m'.active_revision_id ≡ m.active_revision_id)
  automatic_keeps ops q later res i m e automatic found =
      let db = apply_all py ops (empty {V = V}) in
      let moves =
        reconcile-Moves py q db later res
          (apply_all-IsHealthy py ops empty empty-IsHealthy).governed e in
      unchanged db later
        (subst (λ b. IsChange py b db.memories later.memories db.revisions later.revisions)
          automatic moves.0)
        i m found

module _ {F : Type 0} where
  -- The guard of both decisions.
  stops {ℓ} :
      {B : Type ℓ} (o : Option (MemoryCandidate F)) (c : MemoryCandidate F)
      (k : MemoryCandidate F → Result B)
      → o ≡ some c
      → is_pending c.status ≡ false
      → (found_or lookup_error o >>= (λ x. require value_error (is_pending x.status) >> k x))
        ≡ raised value_error
  stops none c k e over = absurd (ground (arith, e))
  stops (some x) c k e over =
      let same : x ≡ c = ground (arith, e) in
      let is_over : is_pending x.status ≡ false = cc (same, over) in rw is_over refl

module _ {F V : Type 0} where
  reject_decided :
      (i : String) (owner_id : ℕ) (base : Option String) (now : ℕ) (db : Db F V)
      (c : MemoryCandidate F)
      → load_candidate_for_update i owner_id base db ≡ some c
      → is_pending c.status ≡ false
      → reject_candidate i owner_id base now db ≡ raised value_error
  unfolding reject_candidate
  reject_decided i owner_id base now db c e over =
      stops (load_candidate_for_update i owner_id base db) c _ e over

  -- The candidate behind a decision.
  load-decided :
      (status : CandidateStatus) (now : ℕ) (i : String) (owner_id : ℕ) (base : Option String)
      (db before : Db F V) (c : MemoryCandidate F)
      → before.candidates ≡ db.candidates
      → load_candidate_for_update i owner_id base db ≡ some c
      → load_candidate_for_update i owner_id base (write_decision status now i before)
        ≡ some (decided status now c)
  unfolding get_candidate
  load-decided status now i owner_id base db before c same e =
      let (found, scope) = only-some _ (get_candidate i db.candidates) e in
      let there =
        found_written (λ (c : MemoryCandidate F). c.candidate_id) i (decided status now)
          before.candidates {r = c} (λ c k. k) (ap (get_candidate i) same ∙ found) in
      ap (only (λ c. in_scope owner_id base c.owner_id c.knowledge_base_id)) there ∙ rw scope refl

module _ {F V : Type 0} (py : Python F V) where
  confirm_decided :
      (i : String) (owner_id : ℕ) (base : Option String) (memory_id : String) (change : Change)
      (db : Db F V) (c : MemoryCandidate F)
      → load_candidate_for_update i owner_id base db ≡ some c
      → is_pending c.status ≡ false
      → confirm_candidate py i owner_id base memory_id change db ≡ raised value_error
  unfolding confirm_candidate
  confirm_decided i owner_id base memory_id change db c e over =
      stops (load_candidate_for_update i owner_id base db) c _ e over

  -- A candidate is decided once: on governed tables, after a confirmation that does not raise, a
  -- second confirmation and a rejection of the same candidate raise ValueError.
  pub decided_once :
      (i : String) (owner_id : ℕ) (base : Option String) (memory_id memory_id' : String)
      (change change' : Change) (now : ℕ) (db later : Db F V) (m : CanonicalMemory F)
      → IsGoverned db.memories db.revisions
      → confirm_candidate py i owner_id base memory_id change db ≡ ok (m, later)
      → (confirm_candidate py i owner_id base memory_id' change' later ≡ raised value_error)
        × (reject_candidate i owner_id base now later ≡ raised value_error)
  decided_once i owner_id base memory_id memory_id' change change' now db later m g e =
      let (before, moved, cs, last, c, there, waiting) =
        confirm-IsChange py i owner_id base memory_id change db later m g e in
      let found : load_candidate_for_update i owner_id base later
          ≡ some (decided promoted change.now c) =
        ap (load_candidate_for_update i owner_id base) (sym last)
        ∙ load-decided promoted change.now i owner_id base db before c cs there in
      (
        confirm_decided i owner_id base memory_id' change' later (decided promoted change.now c)
            found refl,
        reject_decided i owner_id base now later (decided promoted change.now c) found refl,
      )
