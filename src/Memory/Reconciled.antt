-- ===== src/Memory/Reconciled.antt =====
-- `reconcile_candidate` and `confirm_candidate` as one change each.
use reminder.Prelude.{
  ℕ, String, ◌≡◌, refl, sym, subst, ap, ◌∙◌, ◌⊎◌, inl, inr, Bool, true, false, not, Option, some,
  List, arith, some_of, ◌==◌,
}
use reminder.Memory.Record.{
  promoted, CanonicalMemory, MemoryCandidate, Db, value_error, lookup_error, ok, found_or, Python,
}
use reminder.Memory.Policy.{
  PolicyDecision, promote, pending_review, reject, is_secret, is_confidence, classify_candidate,
}
use reminder.Memory.Tables.{insert_candidate, load_candidate_for_update}
use reminder.Memory.Evidence.{persist_evidence, attach_candidate_evidence, candidate_evidence_ids}
use reminder.Memory.Revise.{Statement, Change, normalized, fingerprint_of}
use reminder.Memory.Reconcile.{
  Request, Slot, compatible, conflicting, vacant, is_conflict, look_up, reinforce,
  ReconciliationResult, memory_types, new_candidate, store_candidate, carry_out, unless_rejected,
  reconcile_admitted, reconcile_candidate,
}
use reminder.Memory.Decide.{
  is_pending, statement_of, is_current, write_decision, place_candidate, confirm_candidate,
}
use reminder.Memory.Governed.{IsGoverned}
use reminder.Memory.Effects.{
  found_ok, bind_ok, then_ok, ok_eq, insert_candidate_ok, attach_candidate_ok,
}
use reminder.Memory.Changes.{
  IsChange, kept, created, revised_to, create-IsCreated, revise-IsRevised, reinforce-IsChange,
}
use reminder.Memory.Steps.{
  IsThere, look_up-IsThere, classify_public, classify_automatic, Grows, decide-IsChange,
}

module _ {F V : Type 0} (py : Python F V) where
  -- From these tables to those.
  abbrev pub Moves : Bool → Db F V → Db F V → Type 0
  Moves w db later =
      IsChange py w db.memories later.memories db.revisions later.revisions
      × Grows py db.candidates later.candidates

  store-Moves :
      (w : Bool) (q : Request F) (s : Statement) (d : PolicyDecision) (slot : Slot F V)
      (ids : List String) (db later : Db F V) (res : ReconciliationResult F)
      → is_secret q.sensitivity ≡ false
      → (d ≡ promote → is_conflict slot ≡ true → w ≡ true)
      → store_candidate py q s d slot ids db ≡ ok (res, later)
      → Moves w db later
  unfolding store_candidate
  store-Moves w q s d slot ids db later res public may e =
      let c = new_candidate py q s d slot in
      let (cs, e1, e2) = bind_ok (insert_candidate c db.candidates) _ e in
      let ((n, attached), e3, e4) =
        bind_ok
          (attach_candidate_evidence c.candidate_id ids q.owner_id q.knowledge_base_id
            (record db { candidates = cs }))
          _ e2 in
      let (same_m, same_r, same_c) =
        attach_candidate_ok c.candidate_id ids q.owner_id q.knowledge_base_id _ e3 in
      let (change, rest) = decide-IsChange py w q s d c slot ids attached later res public may e4 in
      (
        subst (λ ms. IsChange py w ms later.memories db.revisions later.revisions) same_m
            (subst (λ rs. IsChange py w attached.memories later.memories rs later.revisions) same_r
              change),
        inr (c, public, insert_candidate_ok c db.candidates e1 ∙ (sym same_c ∙ sym rest)),
      )

  carry_out-Moves :
      (w : Bool) (q : Request F) (s : Statement) (d : PolicyDecision) (slot : Slot F V)
      (ids : List String) (db later : Db F V) (res : ReconciliationResult F)
      → is_secret q.sensitivity ≡ false
      → (d ≡ promote → is_conflict slot ≡ true → w ≡ true)
      → IsThere db.memories slot
      → carry_out py q s d slot ids db ≡ ok (res, later)
      → Moves w db later
  carry_out-Moves w q s promote (compatible m r) ids db later res public may there e =
      let (((b, m'), after), e1, e2) =
        bind_ok (reinforce py m r q.confidence q.sensitivity ids q.owner_id q.knowledge_base_id db)
          _ e in
      let last : after ≡ later = ap (λ p. p.1) (ok_eq e2) in
      let (change, cs) =
        reinforce-IsChange py w m r q.confidence q.sensitivity ids q.owner_id q.knowledge_base_id db
          after b m' public there e1 in
      subst (Moves w db) last (change, inl cs)
  carry_out-Moves w q s promote (conflicting m r) ids db later res public may there e =
      store-Moves w q s promote (conflicting m r) ids db later res public may e
  carry_out-Moves w q s promote vacant ids db later res public may there e =
      store-Moves w q s promote vacant ids db later res public may e
  carry_out-Moves w q s pending_review slot ids db later res public may there e =
      store-Moves w q s pending_review slot ids db later res public may e
  carry_out-Moves w q s reject slot ids db later res public may there e =
      store-Moves w q s reject slot ids db later res public may e

  stays : (w : Bool) (db later : Db F V) → db ≡ later → Moves w db later
  stays w db later e = (
    kept (ap (λ d. d.memories) e) (ap (λ d. d.revisions) e),
    inl (ap (λ d. d.candidates) (sym e)),
  )

  admitted-Moves :
      (q : Request F) (db later : Db F V) (res : ReconciliationResult F)
      → is_secret q.sensitivity ≡ false
      → IsGoverned db.memories db.revisions
      → reconcile_admitted py q db ≡ ok (res, later)
      → Moves q.explicit_request db later
  unfolding reconcile_admitted
  admitted-Moves q db later res public g e =
      let (fits, e1) = then_ok value_error (is_confidence py q.confidence) _ e in
      let (kind, e2) = then_ok value_error (some_of (λ t. t == q.memory_type) memory_types) _ e1 in
      let s = normalized py q.statement in
      let (slot, e3, e4) =
        bind_ok (look_up q.owner_id q.knowledge_base_id q.memory_type s (fingerprint_of py s) db) _
          e2 in
      let (d, e5, e6) =
        bind_ok
          (classify_candidate py q.sensitivity q.confidence q.explicit_request (is_conflict slot)) _
          e4 in
      let ((ids, evidence), e7, e8) =
        bind_ok (persist_evidence py q.owner_id q.knowledge_base_id q.evidence db.evidence) _ e6 in
      carry_out-Moves q.explicit_request q s d slot ids (record db { evidence = evidence }) later
        res public
        (λ chosen k.
          classify_automatic py q.sensitivity q.confidence q.explicit_request (is_conflict slot)
            (e5 ∙ ap ok chosen) k)
        (look_up-IsThere q.owner_id q.knowledge_base_id q.memory_type s (fingerprint_of py s) db
          slot g e3)
        e8

  pub reconcile-Moves :
      (q : Request F) (db later : Db F V) (res : ReconciliationResult F)
      → IsGoverned db.memories db.revisions
      → reconcile_candidate py q db ≡ ok (res, later)
      → Moves q.explicit_request db later
  unfolding reconcile_candidate
  reconcile-Moves q db later res g e =
      let (d, e1, e2) =
        bind_ok (classify_candidate py q.sensitivity q.confidence q.explicit_request false) _ e in
      decided d (classify_public py q.sensitivity q.confidence q.explicit_request false d e1) e2
    where
      decided :
          (d : PolicyDecision)
          → (d ≡ reject) ⊎ (is_secret q.sensitivity ≡ false)
          → unless_rejected py d (reconcile_admitted py q db) db ≡ ok (res, later)
          → Moves q.explicit_request db later
      decided reject open_or_not e = stays q.explicit_request db later (ap (λ p. p.1) (ok_eq e))
      decided promote (inl clash) e = absurd (ground (arith, clash))
      decided promote (inr public) e = admitted-Moves q db later res public g e
      decided pending_review (inl clash) e = absurd (ground (arith, clash))
      decided pending_review (inr public) e = admitted-Moves q db later res public g e

  place-IsChange :
      (w : Bool) (i : String) (change : Change) (c : MemoryCandidate F) (owner_id : ℕ)
      (base : Option String) (slot : Slot F V) (ids : List String) (db later : Db F V)
      (m : CanonicalMemory F)
      → is_secret c.sensitivity ≡ false
      → w ≡ true
      → IsThere db.memories slot
      → place_candidate py i change c owner_id base slot ids db ≡ ok (m, later)
      → IsChange py w db.memories later.memories db.revisions later.revisions
        × (later.candidates ≡ db.candidates)
  unfolding place_candidate
  place-IsChange w i change c owner_id base (compatible n r) ids db later m public may there e =
      let (((b, m'), after), e1, e2) =
        bind_ok (reinforce py n r c.confidence c.sensitivity ids owner_id base db) _ e in
      let last : after ≡ later = ap (λ p. p.1) (ok_eq e2) in
      subst
        (λ d.
          IsChange py w db.memories d.memories db.revisions d.revisions
          × (d.candidates ≡ db.candidates))
        last
        (reinforce-IsChange py w n r c.confidence c.sensitivity ids owner_id base db after b m'
          public there e1)
  place-IsChange w i change c owner_id base (conflicting n r) ids db later m public may there e =
      let (current, e1) = then_ok value_error (is_current c n r) _ e in
      let (revised, cs) =
        revise-IsRevised py n.memory_id owner_id base (statement_of c) (some c.confidence)
          c.sensitivity _ ids db later m e1 in
      (revised_to may revised, cs)
  place-IsChange w i change c owner_id base vacant ids db later m public may there e =
      let (new, cs) =
        create-IsCreated py i owner_id base c.memory_type (statement_of c) c.fingerprint
          c.confidence c.sensitivity _ ids db later m public e in
      (created new, cs)

  -- A confirmation changes the memories once, and writes the decision on the candidate.
  pub confirm-IsChange :
      (i : String) (owner_id : ℕ) (base : Option String) (memory_id : String) (change : Change)
      (db later : Db F V) (m : CanonicalMemory F)
      → IsGoverned db.memories db.revisions
      → confirm_candidate py i owner_id base memory_id change db ≡ ok (m, later)
      → (before : Db F V) × IsChange py true db.memories later.memories db.revisions later.revisions
        × (before.candidates ≡ db.candidates)
        × (write_decision promoted change.now i before ≡ later)
        × (c : MemoryCandidate F) × (load_candidate_for_update i owner_id base db ≡ some c)
        × (is_pending c.status ≡ true)
  unfolding confirm_candidate
  confirm-IsChange i owner_id base memory_id change db later m g e =
      let (c, e1, e2) =
        bind_ok (found_or lookup_error (load_candidate_for_update i owner_id base db)) _ e in
      let (waiting, e3) = then_ok value_error (is_pending c.status) _ e2 in
      let (public, e4) = then_ok value_error (not (is_secret c.sensitivity)) _ e3 in
      let (ids, e5, e6) = bind_ok (candidate_evidence_ids i owner_id base db) _ e4 in
      let (slot, e7, e8) =
        bind_ok (look_up owner_id base c.memory_type (statement_of c) c.fingerprint db) _ e6 in
      let ((n, before), e9, e10) =
        bind_ok (place_candidate py memory_id change c owner_id base slot ids db) _ e8 in
      let last : write_decision promoted change.now i before ≡ later = ap (λ p. p.1) (ok_eq e10) in
      let (moved, cs) =
        place-IsChange true memory_id change c owner_id base slot ids db before n
          (ground (arith, public)) refl
          (look_up-IsThere owner_id base c.memory_type (statement_of c) c.fingerprint db slot g e7)
          e9 in
      (
        before,
        subst (λ d. IsChange py true db.memories d.memories db.revisions d.revisions) last moved,
        cs,
        last,
        c,
        found_ok lookup_error _ e1,
        waiting,
      )
