-- ===== src/Memory/Histories.antt =====
-- Any sequence of operations on the governed memories, each in its transaction.
use reminder.Prelude.{
  ℕ, String, ◌≡◌, refl, sym, subst, ap, ◌∙◌, ◌⊎◌, inl, inr, true, false, Option, some, List, [],
  ◌∷◌, ◌++◌, update_rows,
}
use reminder.Memory.Record.{
  Sensitivity, CandidateStatus, promoted, rejected, CanonicalMemory, MemoryCandidate, Db,
  value_error, lookup_error, Result, ok, raised, found_or, Python,
}
use reminder.Memory.Policy.{is_secret}
use reminder.Memory.Tables.{get_memory, get_candidate, load_candidate_for_update}
use reminder.Memory.Revise.{Statement, Change, revise_memory}
use reminder.Memory.Reconcile.{Request, ReconciliationResult, reconcile_candidate}
use reminder.Memory.Decide.{
  is_pending, decided, write_decision, confirm_candidate, reject_candidate,
}
use reminder.Memory.Governed.{IsGoverned, written_cases, appended_cases}
use reminder.Memory.Effects.{bind_ok, then_ok, ok_eq}
use reminder.Memory.Changes.{revised_to, revise-IsRevised}
use reminder.Memory.Reconciled.{reconcile-Moves, confirm-IsChange}
use reminder.Memory.Governance.{change-IsGoverned, change_public}

pub data Op (F : Type 0) : Type 0 where
  reconcile : Request F → Op F
  confirm :
      (candidate_id : String)
      → (owner_id : ℕ) → (knowledge_base_id : Option String) → (memory_id : String) → Change
      → Op F
  dismiss :
      (candidate_id : String)
      → (owner_id : ℕ) → (knowledge_base_id : Option String) → (now : ℕ) → Op F
  revise :
      (memory_id : String)
      → (owner_id : ℕ) → (knowledge_base_id : Option String) → Statement
      → Option F
      → Sensitivity
      → Change
      → (evidence_ids : List String) → Op F

-- What raises is rolled back.
abbrev pub after : {A F V : Type 0} → Result (A × Db F V) → Db F V → Db F V
after (ok (a, later)) db = later
after (raised e) db = db

module _ {F V : Type 0} where
  -- No memory and no candidate of the tables is a secret.
  pub record IsPublic (db : Db F V) : Type 0 where
    pub memories :
        (i : String) (m : CanonicalMemory F)
        → get_memory i db.memories ≡ some m
        → is_secret m.sensitivity ≡ false
    pub candidates :
        (i : String) (c : MemoryCandidate F)
        → get_candidate i db.candidates ≡ some c
        → is_secret c.sensitivity ≡ false

  pub record IsHealthy (db : Db F V) : Type 0 where
    pub governed : IsGoverned db.memories db.revisions
    pub public : IsPublic db

module _ {F V : Type 0} (py : Python F V) where
  abbrev pub apply : Op F → Db F V → Db F V
  apply (reconcile q) db = after (reconcile_candidate py q db) db
  apply (confirm i owner_id base memory_id change) db =
      after (confirm_candidate py i owner_id base memory_id change db) db
  apply (dismiss i owner_id base now) db = after (reject_candidate i owner_id base now db) db
  apply (revise i owner_id base s c sensitivity change ids) db =
      after (revise_memory py i owner_id base s c sensitivity change ids db) db

  abbrev pub apply_all : List (Op F) → Db F V → Db F V
  apply_all [] db = db
  apply_all (op ∷ ops) db = apply_all ops (apply op db)

  grown :
      (cs later : List (MemoryCandidate F))
      → (later ≡ cs)
        ⊎ ((c : MemoryCandidate F) × (is_secret c.sensitivity ≡ false) × (cs ++ (c ∷ []) ≡ later))
      → ((i : String) (c : MemoryCandidate F)
          → get_candidate i cs ≡ some c
          → is_secret c.sensitivity ≡ false)
      → (i : String) (c : MemoryCandidate F) → get_candidate i later ≡ some c
      → is_secret c.sensitivity ≡ false
  unfolding get_candidate
  grown cs later (inl same) all i c e = all i c (ap (get_candidate i) (sym same) ∙ e)
  grown cs later (inr (x, public, more)) all i c e =
      elim (appended_cases (λ (c : MemoryCandidate F). c.candidate_id) i cs x
        (ap (get_candidate i) more ∙ e)) [
          | inl old ↦ all i c old
          | inr (gone, key, is_new) ↦ ap (λ c. is_secret c.sensitivity) (sym is_new) ∙ public
        ]

  -- A decision changes no sensitivity.
  decision_public :
      (status : CandidateStatus) (now : ℕ) (k : String) (cs : List (MemoryCandidate F))
      → ((i : String) (c : MemoryCandidate F)
          → get_candidate i cs ≡ some c
          → is_secret c.sensitivity ≡ false)
      → (i : String) (c : MemoryCandidate F)
      → get_candidate i (update_rows (λ c. c.candidate_id) k (decided status now) cs) ≡ some c
      → is_secret c.sensitivity ≡ false
  unfolding get_candidate
  decision_public status now k cs all i c e =
      elim (written_cases (λ (c : MemoryCandidate F). c.candidate_id) k i (decided status now) cs
        (λ c s. s) e) [
          | inl (here, (o, was, is_new)) ↦
              ap (λ c. is_secret c.sensitivity) (sym is_new) ∙ all i o was
          | inr (other, was) ↦ all i c was
        ]

  reconcile-IsHealthy :
      (q : Request F) (db : Db F V) → IsHealthy db → IsHealthy (apply (reconcile q) db)
  reconcile-IsHealthy q db h = go (reconcile_candidate py q db) refl
    where
      go :
          (r : Result (ReconciliationResult F × Db F V))
          → reconcile_candidate py q db ≡ r
          → IsHealthy (after r db)
      go (raised x) e = h
      go (ok (res, later)) e =
          let (change, cs) = reconcile-Moves py q db later res h.governed e in
          record {
            governed = change-IsGoverned py q.explicit_request db later change h.governed;
            public = record {
              memories = change_public py q.explicit_request db later change h.public.memories;
              candidates = grown db.candidates later.candidates cs h.public.candidates;
            };
          }

  confirm-IsHealthy :
      (i : String) (owner_id : ℕ) (base : Option String) (memory_id : String) (change : Change)
      (db : Db F V)
      → IsHealthy db
      → IsHealthy (apply (confirm i owner_id base memory_id change) db)
  confirm-IsHealthy i owner_id base memory_id change db h =
      go (confirm_candidate py i owner_id base memory_id change db) refl
    where
      go :
          (r : Result (CanonicalMemory F × Db F V))
          → confirm_candidate py i owner_id base memory_id change db ≡ r
          → IsHealthy (after r db)
      go (raised x) e = h
      go (ok (m, later)) e =
          let (before, moved, cs, last, candidate, there, waiting) =
            confirm-IsChange py i owner_id base memory_id change db later m h.governed e in
          record {
            governed = change-IsGoverned py true db later moved h.governed;
            public = record {
              memories = change_public py true db later moved h.public.memories;
              candidates =
                  subst
                    (λ d.
                      (j : String) (c : MemoryCandidate F)
                      → get_candidate j d.candidates ≡ some c
                      → is_secret c.sensitivity ≡ false)
                    last
                    (decision_public promoted change.now i before.candidates (
                      subst
                        (λ cs.
                          (j : String) (c : MemoryCandidate F)
                          → get_candidate j cs ≡ some c
                          → is_secret c.sensitivity ≡ false)
                        (sym cs) h.public.candidates));
            };
          }

  pub reject_ok :
      (i : String) (owner_id : ℕ) (base : Option String) (now : ℕ) (db later : Db F V)
      (c : MemoryCandidate F)
      → reject_candidate i owner_id base now db ≡ ok (c, later)
      → write_decision rejected now i db ≡ later
  unfolding reject_candidate
  reject_ok i owner_id base now db later c e =
      let (x, e1, e2) =
        bind_ok (found_or lookup_error (load_candidate_for_update i owner_id base db)) _ e in
      let (waiting, e3) = then_ok value_error (is_pending x.status) _ e2 in ap (λ p. p.1) (ok_eq e3)

  dismiss-IsHealthy :
      (i : String) (owner_id : ℕ) (base : Option String) (now : ℕ) (db : Db F V)
      → IsHealthy db
      → IsHealthy (apply (dismiss i owner_id base now) db)
  dismiss-IsHealthy i owner_id base now db h = go (reject_candidate i owner_id base now db) refl
    where
      go :
          (r : Result (MemoryCandidate F × Db F V))
          → reject_candidate i owner_id base now db ≡ r
          → IsHealthy (after r db)
      go (raised x) e = h
      go (ok (c, later)) e = subst IsHealthy (reject_ok i owner_id base now db later c e) (record {
        governed = h.governed;
        public = record {
          memories = h.public.memories;
          candidates = decision_public rejected now i db.candidates h.public.candidates;
        };
      })

  revise-IsHealthy :
      (i : String) (owner_id : ℕ) (base : Option String) (s : Statement) (c : Option F)
      (sensitivity : Sensitivity) (change : Change) (ids : List String) (db : Db F V)
      → IsHealthy db
      → IsHealthy (apply (revise i owner_id base s c sensitivity change ids) db)
  revise-IsHealthy i owner_id base s c sensitivity change ids db h =
      go (revise_memory py i owner_id base s c sensitivity change ids db) refl
    where
      go :
          (r : Result (CanonicalMemory F × Db F V))
          → revise_memory py i owner_id base s c sensitivity change ids db ≡ r
          → IsHealthy (after r db)
      go (raised x) e = h
      go (ok (m, later)) e =
          let (revised, cs) =
            revise-IsRevised py i owner_id base s c sensitivity change ids db later m e in
          record {
            governed = change-IsGoverned py true db later (revised_to refl revised) h.governed;
            public = record {
              memories = change_public py true db later (revised_to refl revised) h.public.memories;
              candidates = grown db.candidates later.candidates (inl cs) h.public.candidates;
            };
          }

  pub apply_all-IsHealthy :
      (ops : List (Op F)) (db : Db F V) → IsHealthy db → IsHealthy (apply_all ops db)
  apply_all-IsHealthy [] db h = h
  apply_all-IsHealthy (reconcile q ∷ ops) db h =
      apply_all-IsHealthy ops _ (reconcile-IsHealthy q db h)
  apply_all-IsHealthy (confirm i owner_id base memory_id change ∷ ops) db h =
      apply_all-IsHealthy ops _ (confirm-IsHealthy i owner_id base memory_id change db h)
  apply_all-IsHealthy (dismiss i owner_id base now ∷ ops) db h =
      apply_all-IsHealthy ops _ (dismiss-IsHealthy i owner_id base now db h)
  apply_all-IsHealthy (revise i owner_id base s c sensitivity change ids ∷ ops) db h =
      apply_all-IsHealthy ops _ (revise-IsHealthy i owner_id base s c sensitivity change ids db h)
