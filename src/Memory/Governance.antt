-- ===== src/Memory/Governance.antt =====
-- The operations on governed memories: what every sequence of them keeps.
use reminder.Prelude.{
  String, ◌≡◌, refl, sym, subst, ap, ◌∙◌, inl, inr, Bool, false, some, [], ◌∷◌, ◌++◌, update_rows,
}
use reminder.Memory.Record.{
  Sensitivity, unknown, low, sensitive, secret, CanonicalMemory, Db, Python,
}
use reminder.Memory.Policy.{is_secret, combined_sensitivity}
use reminder.Memory.Tables.{get_memory}
use reminder.Memory.Reconcile.{supported}
use reminder.Memory.Governed.{
  IsGoverned, create-IsGoverned, revise-IsGoverned, support-IsGoverned, written_cases,
  appended_cases,
}
use reminder.Memory.Changes.{IsChange, kept, created, supported_more, revised_to}

module _ {F V : Type 0} (py : Python F V) where
  -- A change keeps one open revision for each memory, which says what the memory says.
  pub change-IsGoverned :
      (w : Bool) (db later : Db F V)
      → IsChange py w db.memories later.memories db.revisions later.revisions
      → IsGoverned db.memories db.revisions
      → IsGoverned later.memories later.revisions
  change-IsGoverned w db later (kept em er) g =
      subst (IsGoverned later.memories) er (subst (λ ms. IsGoverned ms db.revisions) em g)
  change-IsGoverned w db later (created c) g = subst (IsGoverned later.memories) c.revisions (
      subst (λ ms. IsGoverned ms (db.revisions ++ (c.revision ∷ []))) c.memories
        (create-IsGoverned db.memories db.revisions c.memory c.revision g c.absent c.fresh c.same
          c.head))
  change-IsGoverned w db later (supported_more c) g =
      subst (IsGoverned later.memories) c.revisions (
        subst (λ ms. IsGoverned ms db.revisions) c.memories
          (support-IsGoverned db.memories db.revisions c.memory
            (supported py c.memory c.confidence c.sensitivity) g c.found refl refl
            (λ rows h. record {
              head = h.head;
              found = h.found;
              memory = h.memory;
              owner = h.owner;
              base = h.base;
              is_open = h.is_open;
              subject = h.subject;
              predicate = h.predicate;
              value = h.value;
              fingerprint = h.fingerprint;
            })))
  change-IsGoverned w db later (revised_to allowed c) g =
      subst (IsGoverned later.memories) c.revisions (
        subst
          (λ ms. IsGoverned ms (
            update_rows (λ r. r.revision_id) c.old.revision_id
              (λ x. record x { valid_to = some c.now }) db.revisions
            ++ (c.revision ∷ [])))
          c.memories
          (revise-IsGoverned db.memories db.revisions c.memory c.memory' c.old c.revision c.now g
            c.found c.found_old c.fresh c.key c.same c.head))

  secret_combined :
      (a b : Sensitivity)
      → is_secret a ≡ false
      → is_secret b ≡ false
      → is_secret (combined_sensitivity a b) ≡ false
  secret_combined unknown unknown p q = refl
  secret_combined unknown low p q = refl
  secret_combined unknown sensitive p q = refl
  secret_combined unknown secret p q = refl
  secret_combined low b p q = q
  secret_combined sensitive b p q = refl
  secret_combined secret b p q = p

  -- A change stores no secret.
  pub change_public :
      (w : Bool) (db later : Db F V)
      → IsChange py w db.memories later.memories db.revisions later.revisions
      → ((i : String) (m : CanonicalMemory F)
          → get_memory i db.memories ≡ some m
          → is_secret m.sensitivity ≡ false)
      → (i : String) (m : CanonicalMemory F) → get_memory i later.memories ≡ some m
      → is_secret m.sensitivity ≡ false
  unfolding get_memory
  change_public w db later (kept em er) all i m e = all i m (ap (get_memory i) em ∙ e)
  change_public w db later (created c) all i m e =
      elim (appended_cases (λ (m : CanonicalMemory F). m.memory_id) i db.memories c.memory
        (ap (get_memory i) c.memories ∙ e)) [
          | inl old ↦ all i m old
          | inr (gone, key, is_new) ↦ ap (λ m. is_secret m.sensitivity) (sym is_new) ∙ c.public
        ]
  change_public w db later (supported_more c) all i m e =
      elim (written_cases (λ (m : CanonicalMemory F). m.memory_id) c.memory.memory_id i
        (λ n. supported py c.memory c.confidence c.sensitivity) db.memories (λ n k. refl)
        (ap (get_memory i) c.memories ∙ e)) [
          | inl (here, (o, was, is_new)) ↦
              ap (λ m. is_secret m.sensitivity) (sym is_new)
              ∙ secret_combined c.memory.sensitivity c.sensitivity
                  (all c.memory.memory_id c.memory c.found) c.public
          | inr (other, was) ↦ all i m was
        ]
  change_public w db later (revised_to allowed c) all i m e =
      elim (written_cases (λ (m : CanonicalMemory F). m.memory_id) c.memory'.memory_id i
        (λ n. c.memory') db.memories (λ n k. refl) (ap (get_memory i) c.memories ∙ e)) [
          | inl (here, (o, was, is_new)) ↦ ap (λ m. is_secret m.sensitivity) (sym is_new) ∙ c.public
          | inr (other, was) ↦ all i m was
        ]
