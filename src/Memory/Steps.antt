-- ===== src/Memory/Steps.antt =====
-- What `reconcile_candidate` and `confirm_candidate` write where they do not raise.
use reminder.Prelude.{
  ℕ, String, ◌≡◌, refl, sym, subst, ap, ◌⊎◌, inl, inr, Bool, true, false, Option, none, some, List,
  [], ◌∷◌, ◌++◌, arith,
}
use reminder.Memory.Record.{
  Sensitivity, unknown, low, sensitive, secret, CanonicalMemory, MemoryCandidate, Db, ok, Python,
}
use reminder.Memory.Policy.{
  PolicyDecision, promote, pending_review, reject, is_secret, classify_candidate,
}
use reminder.Memory.Tables.{
  get_memory, find_active_memory, find_conflicting_memory, load_active_revision,
}
use reminder.Memory.Revise.{Statement}
use reminder.Memory.Reconcile.{
  Request, Slot, compatible, conflicting, vacant, is_conflict, with_conflict, with_compatible,
  look_up, ReconciliationResult, promote_candidate, decide,
}
use reminder.Memory.Governed.{IsGoverned, first_found}
use reminder.Memory.Effects.{bind_ok, ok_eq}
use reminder.Memory.Changes.{
  IsChange, kept, created, revised_to, create-IsCreated, revise-IsRevised,
}

module _ {F V : Type 0} where
  -- The memory of the slot stands in the table.
  abbrev pub IsThere : List (CanonicalMemory F) → Slot F V → Type 0
  IsThere ms (compatible m r) = get_memory m.memory_id ms ≡ some m
  IsThere ms (conflicting m r) = get_memory m.memory_id ms ≡ some m
  IsThere ms vacant = Unit

  with_conflict-IsThere :
      (owner_id : ℕ) (base : Option String) (o : Option (CanonicalMemory F)) (db : Db F V)
      (slot : Slot F V)
      → ((m : CanonicalMemory F) → o ≡ some m → get_memory m.memory_id db.memories ≡ some m)
      → with_conflict owner_id base o db ≡ ok slot
      → IsThere db.memories slot
  with_conflict-IsThere owner_id base none db slot there e =
      subst (IsThere db.memories) (ok_eq e) tt
  with_conflict-IsThere owner_id base (some m) db slot there e =
      let (r, e1, e2) = bind_ok (load_active_revision m owner_id base db.revisions) _ e in
      subst (IsThere db.memories) (ok_eq e2) (there m refl)

  with_compatible-IsThere :
      (owner_id : ℕ) (base : Option String) (kind : String) (s : Statement) (fingerprint : String)
      (o : Option (CanonicalMemory F)) (db : Db F V) (slot : Slot F V)
      → ((m : CanonicalMemory F) → o ≡ some m → get_memory m.memory_id db.memories ≡ some m)
      → ((m : CanonicalMemory F)
          → find_conflicting_memory owner_id base kind s.subject s.predicate fingerprint db.memories
            ≡ some m
          → get_memory m.memory_id db.memories ≡ some m)
      → with_compatible owner_id base kind s fingerprint o db ≡ ok slot
      → IsThere db.memories slot
  with_compatible-IsThere owner_id base kind s fingerprint none db slot there other e =
      with_conflict-IsThere owner_id base _ db slot other e
  with_compatible-IsThere owner_id base kind s fingerprint (some m) db slot there other e =
      let (r, e1, e2) = bind_ok (load_active_revision m owner_id base db.revisions) _ e in
      subst (IsThere db.memories) (ok_eq e2) (there m refl)

  pub look_up-IsThere :
      (owner_id : ℕ) (base : Option String) (kind : String) (s : Statement) (fingerprint : String)
      (db : Db F V) (slot : Slot F V)
      → IsGoverned db.memories db.revisions
      → look_up owner_id base kind s fingerprint db ≡ ok slot
      → IsThere db.memories slot
  unfolding look_up get_memory find_active_memory find_conflicting_memory
  look_up-IsThere owner_id base kind s fingerprint db slot g e =
      with_compatible-IsThere owner_id base kind s fingerprint _ db slot
        (λ m f. first_found (λ (m : CanonicalMemory F). m.memory_id) _ db.memories g.keyed f)
        (λ m f. first_found (λ (m : CanonicalMemory F). m.memory_id) _ db.memories g.keyed f) e

module _ {F V : Type 0} (py : Python F V) where
  pub classify_public :
      (s : Sensitivity) (c : F) (explicit conflict : Bool) (d : PolicyDecision)
      → classify_candidate py s c explicit conflict ≡ ok d
      → (d ≡ reject) ⊎ (is_secret s ≡ false)
  classify_public unknown c explicit conflict d e = absurd (ground (arith, e))
  classify_public low c explicit conflict d e = inr refl
  classify_public sensitive c explicit conflict d e = inr refl
  classify_public secret c explicit conflict d e = inl (ground (arith, e))

  -- Without an explicit request, a conflict is not promoted.
  pub classify_automatic :
      (s : Sensitivity) (c : F) (explicit conflict : Bool)
      → classify_candidate py s c explicit conflict ≡ ok promote
      → conflict ≡ true
      → explicit ≡ true
  classify_automatic unknown c explicit conflict e k = absurd (ground (arith, e))
  classify_automatic low c explicit conflict e k = ground (arith, e, k)
  classify_automatic sensitive c explicit conflict e k = ground (arith, e, k)
  classify_automatic secret c explicit conflict e k = absurd (ground (arith, e))

  -- The rows of the candidates: the same, or one more, which is no secret.
  abbrev pub Grows : List (MemoryCandidate F) → List (MemoryCandidate F) → Type 0
  Grows cs later =
      (later ≡ cs)
      ⊎ ((c : MemoryCandidate F) × (is_secret c.sensitivity ≡ false) × (cs ++ (c ∷ []) ≡ later))

  promote-IsChange :
      (w : Bool) (q : Request F) (s : Statement) (slot : Slot F V) (ids : List String)
      (db later : Db F V) (m : CanonicalMemory F)
      → is_secret q.sensitivity ≡ false
      → (is_conflict slot ≡ true → w ≡ true)
      → promote_candidate py q s slot ids db ≡ ok (m, later)
      → IsChange py w db.memories later.memories db.revisions later.revisions
        × (later.candidates ≡ db.candidates)
  unfolding promote_candidate
  promote-IsChange w q s (conflicting n r) ids db later m public may e =
      let (change, cs) =
        revise-IsRevised py n.memory_id q.owner_id q.knowledge_base_id s (some q.confidence)
          q.sensitivity _ ids db later m e in
      (revised_to (may refl) change, cs)
  promote-IsChange w q s (compatible n r) ids db later m public may e =
      let (change, cs) =
        create-IsCreated py q.memory_id q.owner_id q.knowledge_base_id q.memory_type s _
          q.confidence q.sensitivity _ ids db later m public e in
      (created change, cs)
  promote-IsChange w q s vacant ids db later m public may e =
      let (change, cs) =
        create-IsCreated py q.memory_id q.owner_id q.knowledge_base_id q.memory_type s _
          q.confidence q.sensitivity _ ids db later m public e in
      (created change, cs)

  pub decide-IsChange :
      (w : Bool) (q : Request F) (s : Statement) (d : PolicyDecision) (c : MemoryCandidate F)
      (slot : Slot F V) (ids : List String) (db later : Db F V) (res : ReconciliationResult F)
      → is_secret q.sensitivity ≡ false
      → (d ≡ promote → is_conflict slot ≡ true → w ≡ true)
      → decide py q s d c slot ids db ≡ ok (res, later)
      → IsChange py w db.memories later.memories db.revisions later.revisions
        × (later.candidates ≡ db.candidates)
  decide-IsChange w q s promote c slot ids db later res public may e =
      let ((m, after), e1, e2) = bind_ok (promote_candidate py q s slot ids db) _ e in
      let last : after ≡ later = ap (λ p. p.1) (ok_eq e2) in
      subst
        (λ d.
          IsChange py w db.memories d.memories db.revisions d.revisions
          × (d.candidates ≡ db.candidates))
        last (promote-IsChange w q s slot ids db after m public (may refl) e1)
  decide-IsChange w q s pending_review c slot ids db later res public may e =
      let last : db ≡ later = ap (λ p. p.1) (ok_eq e) in
      (
        kept (ap (λ d. d.memories) last) (ap (λ d. d.revisions) last),
        ap (λ d. d.candidates) (sym last),
      )
  decide-IsChange w q s reject c slot ids db later res public may e =
      let last : db ≡ later = ap (λ p. p.1) (ok_eq e) in
      (
        kept (ap (λ d. d.memories) last) (ap (λ d. d.revisions) last),
        ap (λ d. d.candidates) (sym last),
      )
