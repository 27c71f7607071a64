-- ===== src/Memory/Changes.antt =====
-- What an operation can do to the memories and their revisions.
use reminder.Prelude.{
  ℕ, String, ◌≡◌, refl, sym, ap, ◌∙◌, Bool, true, false, not, Option, none, some, List, [], ◌∷◌,
  ◌++◌, ltb, arith, eq_refl, eq_iff, update_rows, key-find_row, find_row,
}
use reminder.Memory.Record.{
  Sensitivity, CanonicalMemory, MemoryRevision, Db, value_error, lookup_error, ok, found_or,
  same_base, Python,
}
use reminder.Memory.Policy.{is_secret}
use reminder.Memory.Tables.{
  in_scope, get_memory, get_revision, load_memory_for_update, load_active_revision, insert_memory,
  insert_revision, write_memory,
}
use reminder.Memory.Evidence.{validate_evidence_scope, attach_revision_evidence}
use reminder.Memory.Revise.{
  Statement, Change, new_memory, new_revision, create_memory, normalized, fingerprint_of,
  close_revision, revised, revise_loaded, revise_memory, confidence_fits,
}
use reminder.Memory.Reconcile.{supported, support_if, reinforce}
use reminder.Memory.Governed.{HasHead}
use reminder.Memory.Effects.{
  bind_ok, then_ok, found_ok, only-some, ok_eq, insert_memory_ok, insert_revision_ok,
  write_memory_ok, load_active_revision_ok, attach_revision_ok,
}

pub record IsCreated {F V : Type 0} (ms ms' : List (CanonicalMemory F))
    (rs rs' : List (MemoryRevision V)) : Type 0 where
  pub memory : CanonicalMemory F
  pub revision : MemoryRevision V
  pub absent : get_memory memory.memory_id ms ≡ none
  pub fresh : get_revision memory.active_revision_id rs ≡ none
  pub same : revision.revision_id ≡ memory.active_revision_id
  pub head : HasHead (revision ∷ []) memory
  pub public : is_secret memory.sensitivity ≡ false
  pub memories : ms ++ (memory ∷ []) ≡ ms'
  pub revisions : rs ++ (revision ∷ []) ≡ rs'

pub record IsRevised {F V : Type 0} (ms ms' : List (CanonicalMemory F))
    (rs rs' : List (MemoryRevision V)) : Type 0 where
  pub memory : CanonicalMemory F
  pub memory' : CanonicalMemory F
  pub old : MemoryRevision V
  pub revision : MemoryRevision V
  pub now : ℕ
  pub found : get_memory memory.memory_id ms ≡ some memory
  pub found_old : get_revision memory.active_revision_id rs ≡ some old
  pub fresh : get_revision revision.revision_id (close_revision now old.revision_id rs) ≡ none
  pub key : memory'.memory_id ≡ memory.memory_id
  pub same : revision.revision_id ≡ memory'.active_revision_id
  pub head : HasHead (revision ∷ []) memory'
  pub public : is_secret memory'.sensitivity ≡ false
  pub memories : update_rows (λ n. n.memory_id) memory'.memory_id (λ n. memory') ms ≡ ms'
  pub revisions : close_revision now old.revision_id rs ++ (revision ∷ []) ≡ rs'

pub record IsSupported {F V : Type 0} (py : Python F V) (ms ms' : List (CanonicalMemory F))
    (rs rs' : List (MemoryRevision V)) : Type 0 where
  pub memory : CanonicalMemory F
  pub confidence : F
  pub sensitivity : Sensitivity
  pub found : get_memory memory.memory_id ms ≡ some memory
  pub public : is_secret sensitivity ≡ false
  pub memories :
      update_rows
        (λ n. n.memory_id)
        memory.memory_id
        (λ n. supported py memory confidence sensitivity)
        ms
      ≡ ms'
  pub revisions : rs ≡ rs'

-- Nothing, a new memory, more support for one, or a new value of one where that is allowed.
pub data IsChange {F V : Type 0} (py : Python F V) (overwrites : Bool)
    (ms ms' : List (CanonicalMemory F)) (rs rs' : List (MemoryRevision V)) : Type 0 where
  kept : ms ≡ ms' → rs ≡ rs' → IsChange py overwrites ms ms' rs rs'
  created : IsCreated ms ms' rs rs' → IsChange py overwrites ms ms' rs rs'
  supported_more : IsSupported py ms ms' rs rs' → IsChange py overwrites ms ms' rs rs'
  revised_to : overwrites ≡ true → IsRevised ms ms' rs rs' → IsChange py overwrites ms ms' rs rs'

module _ {F V : Type 0} (py : Python F V) where
  pub create-IsCreated :
      (i : String) (owner_id : ℕ) (base : Option String) (memory_type : String) (s : Statement)
      (fingerprint : String) (c : F) (sensitivity : Sensitivity) (change : Change)
      (ids : List String) (db later : Db F V) (m : CanonicalMemory F)
      → is_secret sensitivity ≡ false
      → create_memory py i owner_id base memory_type s fingerprint c sensitivity change ids db
        ≡ ok (m, later)
      → IsCreated db.memories later.memories db.revisions later.revisions
        × (later.candidates ≡ db.candidates)
  unfolding create_memory get_revision find_row
  create-IsCreated i owner_id base memory_type s fingerprint c sensitivity change ids db later m
        public e =
      let memory : CanonicalMemory F =
        new_memory py i change.revision_id owner_id base memory_type s fingerprint c sensitivity in
      let revision : MemoryRevision V = new_revision py i owner_id base s fingerprint change in
      let (memories, e1, e2) = bind_ok (insert_memory memory db.memories) _ e in
      let (revisions, e3, e4) = bind_ok (insert_revision revision db.revisions) _ e2 in
      let ((n, attached), e5, e6) =
        bind_ok
          (attach_revision_evidence change.revision_id ids owner_id base
            (record db { memories = memories; revisions = revisions }))
          _ e4 in
      let (absent, shape) = insert_memory_ok memory db.memories e1 in
      let (fresh, shape') = insert_revision_ok revision db.revisions e3 in
      let (same_m, same_r, same_c) = attach_revision_ok change.revision_id ids owner_id base _ e5 in
      let last : attached ≡ later = ap (λ p. p.1) (ok_eq e6) in
      (
        record {
          memory = memory;
          revision = revision;
          absent = absent;
          fresh = fresh;
          same = refl;
          head = record {
            head = revision;
            found = ground (arith, eq_refl change.revision_id);
            memory = refl;
            owner = refl;
            base = refl;
            is_open = refl;
            subject = refl;
            predicate = refl;
            value = refl;
            fingerprint = refl;
          };
          public = public;
          memories = shape ∙ (sym same_m ∙ ap (λ d. d.memories) last);
          revisions = shape' ∙ (sym same_r ∙ ap (λ d. d.revisions) last);
        },
        sym (ap (λ d. d.candidates) last) ∙ same_c,
      )

same_base_eq : (a b : Option String) → same_base a b ≡ true → a ≡ b
same_base_eq none none e = refl
same_base_eq none (some b) e = absurd (ground (arith, e))
same_base_eq (some a) none e = absurd (ground (arith, e))
same_base_eq (some a) (some b) e = ap some ((eq_iff a b).0 e)

scope_eq :
    (owner_id owner : ℕ) (base b : Option String)
    → in_scope owner_id base owner b ≡ true
    → (owner_id ≡ owner) × (base ≡ b)
scope_eq owner_id owner base b e =
    (ground (arith, e), sym (same_base_eq b base (ground (arith, e))))

module _ {F V : Type 0} (py : Python F V) where
  loaded_memory :
      (i : String) (owner_id : ℕ) (base : Option String) (db : Db F V) {m : CanonicalMemory F}
      → load_memory_for_update i owner_id base db ≡ some m
      → (get_memory m.memory_id db.memories ≡ some m)
        × (owner_id ≡ m.owner_id)
        × (base ≡ m.knowledge_base_id)
  unfolding get_memory
  loaded_memory i owner_id base db {m} e =
      let (found, scope) = only-some _ (get_memory i db.memories) e in
      let key : m.memory_id ≡ i =
        key-find_row (λ (m : CanonicalMemory F). m.memory_id) i db.memories found in
      let (owner, place) = scope_eq owner_id m.owner_id base m.knowledge_base_id scope in
      (cc (found, key), owner, place)

  revise_loaded-IsRevised :
      (m : CanonicalMemory F) (owner_id : ℕ) (base : Option String) (s : Statement) (c : Option F)
      (sensitivity : Sensitivity) (change : Change) (ids : List String) (db later : Db F V)
      (m' : CanonicalMemory F)
      → is_secret sensitivity ≡ false
      → get_memory m.memory_id db.memories ≡ some m
      → owner_id ≡ m.owner_id
      → base ≡ m.knowledge_base_id
      → revise_loaded py m owner_id base s c sensitivity change ids db ≡ ok (m', later)
      → IsRevised db.memories later.memories db.revisions later.revisions
        × (later.candidates ≡ db.candidates)
  unfolding revise_loaded get_revision find_row
  revise_loaded-IsRevised m owner_id base s c sensitivity change ids db later m' public found owner
        place e =
      let (old, e1, e2) = bind_ok (load_active_revision m owner_id base db.revisions) _ e in
      let (scoped, e3, e4) = bind_ok (validate_evidence_scope ids owner_id base db.evidence) _ e2 in
      let revision : MemoryRevision V =
        new_revision py m.memory_id owner_id base s (fingerprint_of py s) change in
      let memory : CanonicalMemory F =
        revised py m s (fingerprint_of py s) sensitivity c change.revision_id in
      let (revisions, e5, e6) =
        bind_ok (insert_revision revision (close_revision change.now old.revision_id db.revisions))
          _ e4 in
      let ((n, attached), e7, e8) =
        bind_ok
          (attach_revision_evidence change.revision_id scoped owner_id base
            (record db { revisions = revisions }))
          _ e6 in
      let (memories, e9, e10) = bind_ok (write_memory memory attached.memories) _ e8 in
      let (fresh, shape) = insert_revision_ok revision _ e5 in
      let (same_m, same_r, same_c) =
        attach_revision_ok change.revision_id scoped owner_id base _ e7 in
      let written : update_rows (λ n. n.memory_id) m.memory_id (λ n. memory) attached.memories
          ≡ memories =
        write_memory_ok memory attached.memories e9 in
      let last : record attached { memories = memories } ≡ later = ap (λ p. p.1) (ok_eq e10) in
      (
        record {
          memory = m;
          memory' = memory;
          old = old;
          revision = revision;
          now = change.now;
          found = found;
          found_old = load_active_revision_ok m owner_id base db.revisions e1;
          fresh = fresh;
          key = refl;
          same = refl;
          head = record {
            head = revision;
            found = ground (arith, eq_refl change.revision_id);
            memory = refl;
            owner = owner;
            base = place;
            is_open = refl;
            subject = refl;
            predicate = refl;
            value = refl;
            fingerprint = refl;
          };
          public = public;
          memories =
              ap (λ rows. update_rows (λ n. n.memory_id) m.memory_id (λ n. memory) rows)
                (sym same_m)
              ∙ (written ∙ ap (λ d. d.memories) last);
          revisions = shape ∙ (sym same_r ∙ ap (λ d. d.revisions) last);
        },
        sym (ap (λ d. d.candidates) last) ∙ same_c,
      )

  pub revise-IsRevised :
      (i : String) (owner_id : ℕ) (base : Option String) (s : Statement) (c : Option F)
      (sensitivity : Sensitivity) (change : Change) (ids : List String) (db later : Db F V)
      (m' : CanonicalMemory F)
      → revise_memory py i owner_id base s c sensitivity change ids db ≡ ok (m', later)
      → IsRevised db.memories later.memories db.revisions later.revisions
        × (later.candidates ≡ db.candidates)
  unfolding revise_memory
  revise-IsRevised i owner_id base s c sensitivity change ids db later m' e =
      let (public, e1) = then_ok value_error (not (is_secret sensitivity)) _ e in
      let (fits, e2) = then_ok value_error (confidence_fits py c) _ e1 in
      let (m, e3, e4) =
        bind_ok (found_or lookup_error (load_memory_for_update i owner_id base db)) _ e2 in
      let (found, owner, place) = loaded_memory i owner_id base db (found_ok lookup_error _ e3) in
      revise_loaded-IsRevised m owner_id base (normalized py s) c sensitivity change ids db later m'
        (ground (arith, public)) found owner place e4

  pub reinforce-IsChange :
      (w : Bool) (m : CanonicalMemory F) (r : MemoryRevision V) (c : F) (sensitivity : Sensitivity)
      (ids : List String) (owner_id : ℕ) (base : Option String) (db later : Db F V) (b : Bool)
      (m' : CanonicalMemory F)
      → is_secret sensitivity ≡ false
      → get_memory m.memory_id db.memories ≡ some m
      → reinforce py m r c sensitivity ids owner_id base db ≡ ok ((b, m'), later)
      → IsChange py w db.memories later.memories db.revisions later.revisions
        × (later.candidates ≡ db.candidates)
  unfolding reinforce
  reinforce-IsChange w m r c sensitivity ids owner_id base db later b m' public found e =
      let ((n, attached), e1, e2) =
        bind_ok (attach_revision_evidence r.revision_id ids owner_id base db) _ e in
      let (same_m, same_r, same_c) = attach_revision_ok r.revision_id ids owner_id base db e1 in
      let (change, candidates) = supports attached (ltb 0 n) same_m same_r e2 in
      (change, candidates ∙ same_c)
    where
      supports :
          (attached : Db F V) (test : Bool)
          → attached.memories ≡ db.memories
          → attached.revisions ≡ db.revisions
          → support_if py test m c sensitivity attached ≡ ok ((b, m'), later)
          → IsChange py w db.memories later.memories db.revisions later.revisions
            × (later.candidates ≡ attached.candidates)
      supports attached false same_m same_r e =
          let last : attached ≡ later = ap (λ p. p.1) (ok_eq e) in
          (
            kept (sym same_m ∙ ap (λ d. d.memories) last) (sym same_r ∙ ap (λ d. d.revisions) last),
            sym (ap (λ d. d.candidates) last),
          )
      supports attached true same_m same_r e =
          let (memories, e1, e2) =
            bind_ok (write_memory (supported py m c sensitivity) attached.memories) _ e in
          let last : record attached { memories = memories } ≡ later = ap (λ p. p.1) (ok_eq e2) in
          let written = write_memory_ok (supported py m c sensitivity) attached.memories e1 in
          (
            supported_more (record {
              memory = m;
              confidence = c;
              sensitivity = sensitivity;
              found = found;
              public = public;
              memories =
                  ap
                    (λ rows.
                      update_rows (λ n. n.memory_id) m.memory_id (λ n. supported py m c sensitivity)
                        rows)
                    (sym same_m)
                  ∙ (written ∙ ap (λ d. d.memories) last);
              revisions = sym same_r ∙ ap (λ d. d.revisions) last;
            }),
            sym (ap (λ d. d.candidates) last),
          )
