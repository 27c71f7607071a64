-- ===== src/Memory/Governed.antt =====
-- One open revision for each memory: what the insertions and updates of the two tables keep of it.
use reminder.Prelude.{
  All, ℕ, String, ◌≡◌, refl, sym, subst, ◌∙◌, ◌⊎◌, inl, inr, Bool, false, none, some, List, [], ◌∷◌,
  ◌++◌, ◌==◌, eq_iff, eq_refl, arith, Bool-cases, Option-cases, find_row, update_rows,
  find_row-update_rows, find_row-append, find_row-append_some, key-find_row, IsKeyed,
  IsKeyed-append, IsKeyed-update_rows,
}
use reminder.Memory.Record.{CanonicalMemory, MemoryRevision}
use reminder.Memory.Tables.{first_of, get_memory, get_revision}

-- The active revision of a memory: open, and saying what the memory says.
pub record HasHead {F V : Type 0} (revisions : List (MemoryRevision V)) (m : CanonicalMemory F)
    : Type 0 where
  pub head : MemoryRevision V
  pub found : get_revision m.active_revision_id revisions ≡ some head
  pub memory : head.memory_id ≡ m.memory_id
  pub owner : head.owner_id ≡ m.owner_id
  pub base : head.knowledge_base_id ≡ m.knowledge_base_id
  pub is_open : head.valid_to ≡ none
  pub subject : head.subject ≡ m.subject
  pub predicate : head.predicate ≡ m.predicate
  pub value : head.value ≡ m.value
  pub fingerprint : head.fingerprint ≡ m.fingerprint

pub record IsGoverned {F V : Type 0} (memories : List (CanonicalMemory F))
    (revisions : List (MemoryRevision V)) : Type 0 where
  pub heads :
      (i : String) (m : CanonicalMemory F) → get_memory i memories ≡ some m → HasHead revisions m
  pub keyed : IsKeyed (λ m. m.memory_id) memories
  pub open_active :
      (j : String) (r : MemoryRevision V)
      → get_revision j revisions ≡ some r
      → r.valid_to ≡ none
      → (m : CanonicalMemory F) × (get_memory r.memory_id memories ≡ some m)
        × (m.active_revision_id ≡ j)

module _ {A : Type 0} (key : A → String) where
  -- The row that a condition selects is the one that its key finds.
  pub first_found :
      (p : A → Bool) (rs : List A) {r : A}
      → IsKeyed key rs
      → first_of p rs ≡ some r
      → find_row key (key r) rs ≡ some r
  unfolding first_of
  first_found p rs keyed e = go rs keyed e
    where
      go :
          (zs : List A) {r : A}
          → All (λ x. find_row key (key x) rs ≡ some x) zs
          → first_of p zs ≡ some r
          → find_row key (key r) rs ≡ some r
      go [] h e = absurd (ground (arith, e))
      go (z ∷ zs) {r} h e = elim (Bool-cases (p z)) [
        | inl meets ↦
            let is_it : some z ≡ some r = ground (arith, e, meets) in
            let same : z ≡ r = ground (arith, is_it) in cc (h.0, same)
        | inr fails ↦ go zs h.1 (ground (arith, e, fails))
      ]

  -- A row of a table with one more row.
  pub appended_cases :
      (k : String) (rs : List A) (x : A) {r : A}
      → find_row key k (rs ++ (x ∷ [])) ≡ some r
      → (find_row key k rs ≡ some r) ⊎ ((find_row key k rs ≡ none) × (key x ≡ k) × (x ≡ r))
  appended_cases k rs x {r} e = elim (Option-cases (find_row key k rs)) [
    | inl absent ↦
        let there = find_row-append key k rs x absent in
        elim (Bool-cases (key x == k)) [
          | inl same ↦
              let is_it : some x ≡ some r = cc (there, same, e) in
              inr (absent, (eq_iff (key x) k).0 same, ground (arith, is_it))
          | inr other ↦ absurd (cc (there, other, e))
        ]
    | inr (q, found) ↦ inl (cc (find_row-append_some key k rs (x ∷ []) found, found, e))
  ]

  pub found_last :
      (rs : List A) (x : A)
      → find_row key (key x) rs ≡ none
      → find_row key (key x) (rs ++ (x ∷ [])) ≡ some x
  found_last rs x absent = ground (arith, find_row-append key (key x) rs x absent, eq_refl (key x))

  -- A row of a table of which one row is written.
  pub written_cases :
      (k j : String) (f : A → A) (rs : List A) {r : A}
      → ((r : A) → key r ≡ k → key (f r) ≡ k)
      → find_row key j (update_rows key k f rs) ≡ some r
      → ((k ≡ j) × ((o : A) × (find_row key j rs ≡ some o) × (f o ≡ r)))
        ⊎ (((k == j) ≡ false) × (find_row key j rs ≡ some r))
  written_cases k j f rs {r} same e = elim (Bool-cases (k == j)) [
    | inl here ↦ elim (Option-cases (find_row key j rs)) [
      | inl absent ↦
          absurd (ground (arith, find_row-update_rows key k j f rs same, here, absent, e))
      | inr (o, found) ↦ inl (
        (eq_iff k j).0 here,
        (o, found, ground (arith, find_row-update_rows key k j f rs same, here, found, e)),
      )
    ]
    | inr other ↦ inr (other, cc (find_row-update_rows key k j f rs same, other, e))
  ]

  pub found_other :
      (k j : String) (f : A → A) (rs : List A) {r : A}
      → ((r : A) → key r ≡ k → key (f r) ≡ k)
      → (k == j) ≡ false
      → find_row key j rs ≡ some r
      → find_row key j (update_rows key k f rs) ≡ some r
  found_other k j f rs same other found = cc (find_row-update_rows key k j f rs same, other, found)

  pub found_written :
      (k : String) (f : A → A) (rs : List A) {r : A}
      → ((r : A) → key r ≡ k → key (f r) ≡ k)
      → find_row key k rs ≡ some r
      → find_row key k (update_rows key k f rs) ≡ some (f r)
  found_written k f rs same found =
      ground (arith, find_row-update_rows key k k f rs same, eq_refl k, found)

module _ {F V : Type 0} where
  -- The same head in another table.
  moved :
      (rows later : List (MemoryRevision V)) (m : CanonicalMemory F) (h : HasHead rows m)
      → get_revision m.active_revision_id later ≡ some h.head
      → HasHead later m
  moved rows later m h there = record {
    head = h.head;
    found = there;
    memory = h.memory;
    owner = h.owner;
    base = h.base;
    is_open = h.is_open;
    subject = h.subject;
    predicate = h.predicate;
    value = h.value;
    fingerprint = h.fingerprint;
  }

  -- A new memory with its first revision.
  pub create-IsGoverned :
      (memories : List (CanonicalMemory F)) (revisions : List (MemoryRevision V))
      (m : CanonicalMemory F) (r : MemoryRevision V)
      → IsGoverned memories revisions
      → get_memory m.memory_id memories ≡ none
      → get_revision m.active_revision_id revisions ≡ none
      → r.revision_id ≡ m.active_revision_id
      → HasHead (r ∷ []) m
      → IsGoverned (memories ++ (m ∷ [])) (revisions ++ (r ∷ []))
  unfolding get_memory get_revision find_row
  create-IsGoverned memories revisions m r g absent fresh same own = record {
    keyed = IsKeyed-append (λ m. m.memory_id) memories m absent g.keyed;
    heads = λ i n found. elim (appended_cases (λ m. m.memory_id) i memories m found) [
      | inl old ↦
          let h = g.heads i n old in
          moved revisions (revisions ++ (r ∷ [])) n h (
            find_row-append_some (λ r. r.revision_id) n.active_revision_id revisions (r ∷ [])
              h.found)
      | inr (gone, key, is_new) ↦
          let is_r : r ≡ own.head = ground (arith, own.found, same) in
          let last = found_last (λ r. r.revision_id) revisions r (cc (fresh, same)) in
          subst (HasHead (revisions ++ (r ∷ []))) is_new
            (moved (r ∷ []) (revisions ++ (r ∷ [])) m own (cc (last, is_r, same)))
    ];
    open_active = λ j s found is_open.
        elim (appended_cases (λ r. r.revision_id) j revisions r found) [
          | inl old ↦
              let (n, there, active) = g.open_active j s old is_open in
              (
                n,
                find_row-append_some (λ m. m.memory_id) s.memory_id memories (m ∷ []) there,
                active,
              )
          | inr (gone, key, is_new) ↦
              let is_r : r ≡ own.head = ground (arith, own.found, same) in
              let place : s.memory_id ≡ m.memory_id = cc (is_new, is_r, own.memory) in
              let last = found_last (λ m. m.memory_id) memories m absent in
              (m, cc (last, place), cc (key, same))
        ];
  }

  -- A new value: the old revision is closed, the new one appended, the memory written.
  pub revise-IsGoverned :
      (memories : List (CanonicalMemory F)) (revisions : List (MemoryRevision V))
      (m m' : CanonicalMemory F) (old r : MemoryRevision V) (now : ℕ)
      → IsGoverned memories revisions
      → get_memory m.memory_id memories ≡ some m
      → get_revision m.active_revision_id revisions ≡ some old
      → get_revision r.revision_id (
          update_rows
            (λ r. r.revision_id)
            old.revision_id
            (λ x. record x { valid_to = some now })
            revisions)
        ≡ none
      → m'.memory_id ≡ m.memory_id
      → r.revision_id ≡ m'.active_revision_id
      → HasHead (r ∷ []) m'
      → IsGoverned (update_rows (λ n. n.memory_id) m'.memory_id (λ n. m') memories) (
          update_rows
            (λ r. r.revision_id)
            old.revision_id
            (λ x. record x { valid_to = some now })
            revisions
          ++ (r ∷ []))
  unfolding get_memory get_revision find_row
  revise-IsGoverned memories revisions m m' old r now g at_m at_old fresh key same own =
      let closed =
        update_rows (λ r. r.revision_id) old.revision_id (λ x. record x { valid_to = some now })
          revisions in
      let close : MemoryRevision V → MemoryRevision V = λ x. record x { valid_to = some now } in
      let old_key : old.revision_id ≡ m.active_revision_id =
        key-find_row (λ (r : MemoryRevision V). r.revision_id) m.active_revision_id revisions
          at_old in
      let h0 = g.heads m.memory_id m at_m in
      let is_old : old ≡ h0.head = ground (arith, at_old, h0.found) in
      let is_r : r ≡ own.head = ground (arith, own.found, same) in
      let last = found_last (λ (r : MemoryRevision V). r.revision_id) closed r fresh in
      record {
        keyed =
            IsKeyed-update_rows (λ n. n.memory_id) m'.memory_id (λ n. m') memories (λ n k. refl)
              g.keyed;
        heads = λ i n found.
            elim (written_cases (λ (n : CanonicalMemory F). n.memory_id) m'.memory_id i (λ n. m')
              memories (λ n k. refl) found) [
                | inl (here, (o, was, is_new)) ↦
                    subst (HasHead (closed ++ (r ∷ []))) is_new
                      (moved (r ∷ []) (closed ++ (r ∷ [])) m' own (cc (last, is_r, same)))
                | inr (other, was) ↦
                    let h = g.heads i n was in
                    let n_key : n.memory_id ≡ i =
                      key-find_row (λ (n : CanonicalMemory F). n.memory_id) i memories was in
                    elim (Bool-cases (old.revision_id == n.active_revision_id)) [
                      | inl clash ↦
                          let same_id : old.revision_id ≡ n.active_revision_id =
                            (eq_iff old.revision_id n.active_revision_id).0 clash in
                          let is_h : some h.head ≡ some old =
                            cc (h.found, at_old, old_key, same_id) in
                          let eq_h : h.head ≡ old = ground (arith, is_h) in
                          let same_memory : m'.memory_id ≡ i =
                            cc (eq_h, is_old, h.memory, h0.memory, key, n_key) in
                          absurd (cc (other, (eq_iff m'.memory_id i).1 same_memory))
                      | inr apart ↦ moved revisions (closed ++ (r ∷ [])) n h (
                          find_row-append_some (λ r. r.revision_id) n.active_revision_id closed
                            (r ∷ [])
                            (found_other (λ r. r.revision_id) old.revision_id n.active_revision_id
                              close revisions (λ x k. k) apart h.found))
                    ]
              ];
        open_active = λ j s found is_open.
            elim (appended_cases (λ (r : MemoryRevision V). r.revision_id) j closed r found) [
              | inl before ↦
                  elim (written_cases (λ (r : MemoryRevision V). r.revision_id) old.revision_id j
                    close revisions (λ x k. k) before) [
                      | inl (here, (o, was, is_closed)) ↦
                          absurd (ground (arith, is_closed, is_open))
                      | inr (other, was) ↦
                          let (n, there, active) = g.open_active j s was is_open in
                          elim (Bool-cases (m'.memory_id == s.memory_id)) [
                            | inl clash ↦
                                let place : m.memory_id ≡ s.memory_id =
                                  sym key ∙ (eq_iff m'.memory_id s.memory_id).0 clash in
                                let is_n : some n ≡ some m = cc (there, at_m, place) in
                                let eq_n : n ≡ m = ground (arith, is_n) in
                                let same_id : old.revision_id ≡ j = cc (old_key, eq_n, active) in
                                absurd (cc (other, (eq_iff old.revision_id j).1 same_id))
                            | inr apart ↦ (
                              n,
                              found_other (λ n. n.memory_id) m'.memory_id s.memory_id (λ n. m')
                                  memories (λ n k. refl) apart there,
                              active,
                            )
                          ]
                    ]
              | inr (gone, r_key, is_new) ↦
                  let place : s.memory_id ≡ m'.memory_id = cc (is_new, is_r, own.memory) in
                  let there =
                    found_written (λ (n : CanonicalMemory F). n.memory_id) m'.memory_id (λ n. m')
                      memories {r = m} (λ n k. refl) (cc (at_m, key)) in
                  (m', cc (there, place), cc (r_key, same))
            ];
      }

  -- More support for a memory, which goes on saying the same.
  pub support-IsGoverned :
      (memories : List (CanonicalMemory F)) (revisions : List (MemoryRevision V))
      (m m' : CanonicalMemory F)
      → IsGoverned memories revisions
      → get_memory m.memory_id memories ≡ some m
      → m'.memory_id ≡ m.memory_id
      → m'.active_revision_id ≡ m.active_revision_id
      → ((rows : List (MemoryRevision V)) → HasHead rows m → HasHead rows m')
      → IsGoverned (update_rows (λ n. n.memory_id) m'.memory_id (λ n. m') memories) revisions
  unfolding get_memory
  support-IsGoverned memories revisions m m' g at_m key active keeps = record {
    keyed =
        IsKeyed-update_rows (λ n. n.memory_id) m'.memory_id (λ n. m') memories (λ n k. refl)
          g.keyed;
    heads = λ i n found.
        elim (written_cases (λ (n : CanonicalMemory F). n.memory_id) m'.memory_id i (λ n. m')
          memories (λ n k. refl) found) [
            | inl (here, (o, was, is_new)) ↦
                subst (HasHead revisions) is_new (keeps revisions (g.heads m.memory_id m at_m))
            | inr (other, was) ↦ g.heads i n was
          ];
    open_active = λ j s found is_open.
        let (n, there, is_head) = g.open_active j s found is_open in
        elim (Bool-cases (m'.memory_id == s.memory_id)) [
          | inl clash ↦
              let place : m'.memory_id ≡ s.memory_id = (eq_iff m'.memory_id s.memory_id).0 clash in
              let is_n : some n ≡ some m = cc (there, at_m, place, key) in
              let eq_n : n ≡ m = ground (arith, is_n) in
              let at_m' =
                found_written (λ (n : CanonicalMemory F). n.memory_id) m'.memory_id (λ n. m')
                  memories {r = m} (λ n k. refl) (cc (at_m, key)) in
              (m', cc (at_m', place), cc (active, eq_n, is_head))
          | inr apart ↦ (
            n,
            found_other (λ n. n.memory_id) m'.memory_id s.memory_id (λ n. m') memories (λ n k. refl)
                apart there,
            is_head,
          )
        ];
  }
