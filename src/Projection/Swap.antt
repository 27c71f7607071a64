-- ===== src/Projection/Swap.antt =====
-- What the activation of a projection makes of well-formed tables.
use reminder.Prelude.{
  ℕ, String, ◌≡◌, refl, sym, ◌∙◌, ◌⊎◌, inl, inr, true, false, Option, some, List, [], ◌∷◌, map,
  some_of, All, All-map, All-of_map, All-append, ◌==◌, eq_iff, eq_refl, arith, Bool-cases,
  key-find_row, IsKeyed, IsKeyed-map, some_of-keep,
}
use reminder.Projection.Record.{
  is_staging, is_active_status, DocumentChunkPayload, DocumentProjection, DocumentChunk, Db,
}
use reminder.Projection.Stage.{find_projection}
use reminder.Projection.Activate.{
  same_scope, is_old, activated, old_projection_ids, retire_chunk, show_chunk, new_chunks,
  swapped_chunks,
}
use reminder.Projection.Versions.{IsPlaced, IsWellFormed, find-map, found_behind}

pub key-find :
    (i : String) (rows : List DocumentProjection) {p : DocumentProjection}
    → find_projection i rows ≡ some p
    → p.projection_id ≡ i
unfolding find_projection
key-find i rows e = key-find_row (λ p. p.projection_id) i rows e

same_scope_sym : (p q : DocumentProjection) → same_scope p q ≡ true → same_scope q p ≡ true
same_scope_sym p q e = ground (
  arith,
  eq_iff q.knowledge_base_id p.knowledge_base_id,
  eq_iff p.knowledge_base_id q.knowledge_base_id,
  eq_iff q.document_id p.document_id,
  eq_iff p.document_id q.document_id,
  e,
)

pub key-activated :
    (now : ℕ) (p q : DocumentProjection) → (activated now p q).projection_id ≡ q.projection_id
key-activated now p q = ground arith

-- An active row behind the activation of `p` is that of `p`, or was active and not in its scope.
active_behind :
    (now : ℕ) (p q : DocumentProjection)
    → is_active_status (activated now p q).status ≡ true
    → (q.projection_id ≡ p.projection_id)
      ⊎ ((activated now p q ≡ q) × (is_active_status q.status ≡ true) × (same_scope p q ≡ false))
active_behind now p q e = elim (Bool-cases (q.projection_id == p.projection_id)) [
  | inl same ↦ inl ((eq_iff q.projection_id p.projection_id).0 same)
  | inr other ↦ inr (ground (arith, e, other), ground (arith, e, other), ground (arith, e, other))
]

activated_scope :
    (now : ℕ) (p q r : DocumentProjection) → same_scope (activated now p q) r ≡ same_scope q r
activated_scope now p q r = ground arith

activated_scope_right :
    (now : ℕ) (p q r : DocumentProjection) → same_scope r (activated now p q) ≡ same_scope r q
activated_scope_right now p q r = ground arith

one_active_later :
    {E S : Type 0} (now : ℕ) (db : Db E S) (p : DocumentProjection)
    → IsWellFormed db
    → find_projection p.projection_id db.projections ≡ some p
    → (j k : String) (a b : DocumentProjection)
    → find_projection j (map (activated now p) db.projections) ≡ some a
    → find_projection k (map (activated now p) db.projections) ≡ some b
    → is_active_status a.status ≡ true
    → is_active_status b.status ≡ true
    → same_scope a b ≡ true
    → j ≡ k
one_active_later now db p w at_p j k a b ea eb aa ab same =
    let (a0, fa, sa) = found_behind (activated now p) (key-activated now p) j db.projections ea in
    let (b0, fb, sb) = found_behind (activated now p) (key-activated now p) k db.projections eb in
    let ka : a0.projection_id ≡ j = key-find j db.projections fa in
    let kb : b0.projection_id ≡ k = key-find k db.projections fb in
    let scope : same_scope a0 b0 ≡ true =
      sym (activated_scope now p a0 b0)
      ∙ (sym (activated_scope_right now p b0 (activated now p a0)) ∙ cc (sa, sb, same)) in
    elim (active_behind now p a0 (cc (sa, aa))) [
      | inl is_p ↦ elim (active_behind now p b0 (cc (sb, ab))) [
        | inl is_p' ↦ cc (ka, kb, is_p, is_p')
        | inr (still, was, apart) ↦
            let same_row : some a0 ≡ some p = cc (fa, at_p, ka, is_p) in
            let row : a0 ≡ p = ground (arith, same_row) in absurd (cc (apart, scope, row))
      ]
      | inr (still, was, apart) ↦ elim (active_behind now p b0 (cc (sb, ab))) [
        | inl is_p' ↦
            let same_row : some b0 ≡ some p = cc (fb, at_p, kb, is_p') in
            let row : b0 ≡ p = ground (arith, same_row) in
            absurd (cc (apart, same_scope_sym a0 b0 scope, row))
        | inr (still', was', apart') ↦ w.one_active j k a0 b0 fa fb was was' scope
      ]
    ]

module _ {E S : Type 0} where
  -- A row that stood in the table.
  old-IsPlaced :
      (now : ℕ) (rows : List DocumentProjection) (p : DocumentProjection) (c : DocumentChunk E S)
      → IsKeyed (λ p. p.projection_id) rows
      → find_projection p.projection_id rows ≡ some p
      → is_staging p.status ≡ true
      → IsPlaced rows c
      → IsPlaced
          (map (activated now p) rows)
          (show_chunk p.projection_id (retire_chunk (old_projection_ids p rows) c))
  unfolding find_projection
  old-IsPlaced now rows p c keyed at_p stage s =
      let q = s.projection in
      let kq : q.projection_id ≡ c.projection_id = key-find c.projection_id rows s.found in
      let met : some_of (λ i. i == c.projection_id) (old_projection_ids p rows) ≡ is_old p q =
        some_of-keep (λ p. p.projection_id) (is_old p) c.projection_id rows keyed s.found in
      let apart : (c.projection_id == p.projection_id) ≡ false =
        elim (Bool-cases (c.projection_id == p.projection_id)) [
          | inl e ↦
              let row : some q ≡ some p =
                cc (s.found, at_p, (eq_iff c.projection_id p.projection_id).0 e) in
              absurd (ground (arith, row, stage, s.settled))
          | inr e ↦ e
        ] in
      let apart_q : (q.projection_id == p.projection_id) ≡ false = cc (apart, kq) in
      record {
        projection = activated now p q;
        found =
            ground (
              arith,
              find-map (activated now p) (key-activated now p) c.projection_id rows,
              s.found,
            );
        settled = ground (arith, s.settled, apart_q);
        follows = ground (arith, s.follows, apart, apart_q, met);
        owner = ground (arith, s.owner);
        base = ground (arith, s.base);
        document = ground (arith, s.document);
      }

  -- A row that the activation adds.
  abbrev pub IsNew : DocumentProjection → DocumentChunk E S → Type 0
  IsNew p c =
      (c.projection_id ≡ p.projection_id)
      × (c.owner_id ≡ p.owner_id)
      × (c.knowledge_base_id ≡ p.knowledge_base_id)
      × (c.document_id ≡ p.document_id)

  pub new_chunks-IsNew :
      (p : DocumentProjection) (cs : List DocumentChunkPayload) (es : List E) (ss : List (Option S))
      → All (IsNew p) (new_chunks p cs es ss)
  unfolding new_chunks
  new_chunks-IsNew p [] es ss = tt
  new_chunks-IsNew p (c ∷ cs) [] ss = tt
  new_chunks-IsNew p (c ∷ cs) (e ∷ es) [] = tt
  new_chunks-IsNew p (c ∷ cs) (e ∷ es) (s ∷ ss) =
      ((refl, refl, refl, refl), new_chunks-IsNew p cs es ss)

  new-IsPlaced :
      (now : ℕ) (rows : List DocumentProjection) (p : DocumentProjection) (c : DocumentChunk E S)
      → find_projection p.projection_id rows ≡ some p
      → IsNew p c
      → IsPlaced (map (activated now p) rows) (show_chunk p.projection_id c)
  unfolding find_projection
  new-IsPlaced now rows p c at_p (same, owner, base, document) =
      let here : (c.projection_id == p.projection_id) ≡ true =
        (eq_iff c.projection_id p.projection_id).1 same in
      record {
        projection = activated now p p;
        found = ground (
          arith,
          find-map (activated now p) (key-activated now p) p.projection_id rows,
          at_p,
          same,
        );
        settled = ground (arith, eq_refl p.projection_id);
        follows = ground (arith, eq_refl p.projection_id, here);
        owner = ground (arith, owner);
        base = ground (arith, base);
        document = ground (arith, document);
      }

  -- The activation of a staging projection of the table.
  pub swap-IsWellFormed :
      (now : ℕ) (db : Db E S) (p : DocumentProjection) (cs : List DocumentChunkPayload)
      (es : List E) (ss : List (Option S))
      → IsWellFormed db
      → find_projection p.projection_id db.projections ≡ some p
      → is_staging p.status ≡ true
      → IsWellFormed (record db {
        projections = map (activated now p) db.projections;
        chunks = swapped_chunks p db.projections (new_chunks p cs es ss) db.chunks;
      })
  swap-IsWellFormed now db p cs es ss w at_p stage = record {
    keyed =
        IsKeyed-map (λ p. p.projection_id) (activated now p) db.projections (key-activated now p)
          w.keyed;
    one_active = one_active_later now db p w at_p;
    placed = All-of_map _ (show_chunk p.projection_id) _ (
        All-append _ _ (new_chunks p cs es ss)
          (All-of_map _ (retire_chunk (old_projection_ids p db.projections)) db.chunks (
            All-map _ _ db.chunks (λ c s. old-IsPlaced now db.projections p c w.keyed at_p stage s)
              w.placed))
          (All-map _ _ (new_chunks p cs es ss) (λ c n. new-IsPlaced now db.projections p c at_p n)
            (new_chunks-IsNew p cs es ss)));
  }
