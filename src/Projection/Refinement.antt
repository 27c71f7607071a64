-- ===== src/Projection/Refinement.antt =====
-- The activation as an operation on what retrieval sees: each document with its visible chunks.
use reminder.Prelude.{
  ℕ, ◌≡◌, refl, ap, ◌∙◌, inl, inr, Bool, true, false, Option, some, List, [], ◌∷◌, ◌++◌, map,
  some_of, keep, All, All-map, All-of_map, eqb_int_eq, ◌==◌, if◌then◌else◌, eq_iff, arith,
  Bool-cases, IsKeyed, some_of-keep,
}
use mathlib.Core.List.{append-nil}
use reminder.Projection.Record.{
  is_staging, DocumentChunkPayload, DocumentProjection, DocumentChunk, Db, ok, Python,
}
use reminder.Projection.Stage.{find_projection}
use reminder.Projection.Prepare.{PreparedProjection, prepare_projection}
use reminder.Projection.Activate.{
  same_scope, is_old, old_projection_ids, retire_chunk, show_chunk, new_chunks, swapped_chunks,
  activate_projection,
}
use reminder.Projection.Versions.{IsPlaced, IsWellFormed}
use reminder.Projection.Swap.{key-find, IsNew, new_chunks-IsNew}
use reminder.Projection.Outcome.{activate_cases}
use reminder.Projection.Shown.{
  is_shown, payload_of, keep-append, keep_none, map-append, shown_after,
}

module _ {E S : Type 0} where
  -- The visible chunks of the document of a projection: the abstract state.
  abbrev pub visible : DocumentProjection → Db E S → List DocumentChunkPayload
  visible r db = map payload_of (keep (is_shown r) db.chunks)

  -- A chunk of one document is not shown for another.
  scope_apart :
      (p r : DocumentProjection) (c : DocumentChunk E S)
      → c.owner_id ≡ p.owner_id
      → c.knowledge_base_id ≡ p.knowledge_base_id
      → c.document_id ≡ p.document_id
      → same_scope p r ≡ false
      → is_shown r c ≡ false
  scope_apart p r c owner base document apart = elim (Bool-cases (is_shown r c)) [
    | inr hidden ↦ hidden
    | inl shown ↦
        let same : same_scope p r ≡ true = ground (
          arith,
          shown,
          owner,
          base,
          document,
          eq_iff r.knowledge_base_id p.knowledge_base_id,
          eq_iff p.knowledge_base_id r.knowledge_base_id,
          eq_iff r.document_id p.document_id,
          eq_iff p.document_id r.document_id,
        ) in
        absurd (cc (same, apart))
  ]

  -- Between two documents that are one.
  scope_same :
      (p r : DocumentProjection) (c : DocumentChunk E S)
      → same_scope p r ≡ true
      → is_shown r c ≡ is_shown p c
  scope_same p r c e =
      let owner : r.owner_id ≡ p.owner_id = eqb_int_eq r.owner_id p.owner_id (ground (arith, e)) in
      let base : r.knowledge_base_id ≡ p.knowledge_base_id =
        (eq_iff r.knowledge_base_id p.knowledge_base_id).0 (ground (arith, e)) in
      let document : r.document_id ≡ p.document_id =
        (eq_iff r.document_id p.document_id).0 (ground (arith, e)) in
      cc (owner, base, document)

  keep_same :
      (f g : DocumentChunk E S → Bool) (xs : List (DocumentChunk E S))
      → ((c : DocumentChunk E S) → f c ≡ g c)
      → keep f xs ≡ keep g xs
  keep_same f g [] h = refl
  keep_same f g (x ∷ xs) h = ground (arith, h x, keep_same f g xs h)

  -- A chunk of another document is shown as before.
  abbrev pub IsUntouched :
      DocumentProjection → (DocumentChunk E S → DocumentChunk E S) → DocumentChunk E S → Type 0
  IsUntouched r f c = (is_shown r (f c) ≡ is_shown r c) × (payload_of (f c) ≡ payload_of c)

  untouched :
      (rows : List DocumentProjection) (p r : DocumentProjection) (c : DocumentChunk E S)
      → IsKeyed (λ p. p.projection_id) rows
      → find_projection p.projection_id rows ≡ some p
      → is_staging p.status ≡ true
      → same_scope p r ≡ false
      → IsPlaced rows c
      → IsUntouched r
          (λ c. show_chunk p.projection_id (retire_chunk (old_projection_ids p rows) c))
          c
  unfolding find_projection
  untouched rows p r c keyed at_p stage apart s =
      let q = s.projection in
      let kq : q.projection_id ≡ c.projection_id = key-find c.projection_id rows s.found in
      let met : some_of (λ i. i == c.projection_id) (old_projection_ids p rows) ≡ is_old p q =
        some_of-keep (λ p. p.projection_id) (is_old p) c.projection_id rows keyed s.found in
      let elsewhere : (c.projection_id == p.projection_id) ≡ false =
        elim (Bool-cases (c.projection_id == p.projection_id)) [
          | inl e ↦
              let row : some q ≡ some p =
                cc (s.found, at_p, (eq_iff c.projection_id p.projection_id).0 e) in
              absurd (ground (arith, row, stage, s.settled))
          | inr e ↦ e
        ] in
      elim (Bool-cases (is_old p q)) [
        | inr current ↦
            (ground (arith, met, current, elsewhere), ground (arith, met, current, elsewhere))
        | inl old ↦
            let owner : c.owner_id ≡ p.owner_id =
              s.owner ∙ eqb_int_eq q.owner_id p.owner_id (ground (arith, old)) in
            let base : c.knowledge_base_id ≡ p.knowledge_base_id =
              s.base ∙ (eq_iff q.knowledge_base_id p.knowledge_base_id).0 (ground (arith, old)) in
            let document : c.document_id ≡ p.document_id =
              s.document ∙ (eq_iff q.document_id p.document_id).0 (ground (arith, old)) in
            let hidden = scope_apart p r c owner base document apart in
            (ground (arith, met, old, elsewhere, hidden), ground (arith, met, old, elsewhere))
      ]

  visible-map :
      (r : DocumentProjection) (f : DocumentChunk E S → DocumentChunk E S)
      (xs : List (DocumentChunk E S))
      → All (IsUntouched r f) xs
      → map payload_of (keep (is_shown r) (map f xs)) ≡ map payload_of (keep (is_shown r) xs)
  visible-map r f [] h = refl
  visible-map r f (x ∷ xs) h = elim (Bool-cases (is_shown r x)) [
    | inl shown ↦
        let now_shown : is_shown r (f x) ≡ true = h.0.0 ∙ shown in
        let rest = visible-map r f xs h.1 in ground (arith, shown, now_shown, h.0.1, rest)
    | inr hidden ↦
        let now_hidden : is_shown r (f x) ≡ false = h.0.0 ∙ hidden in
        let rest = visible-map r f xs h.1 in ground (arith, hidden, now_hidden, rest)
  ]

  map-compose :
      (f g : DocumentChunk E S → DocumentChunk E S) (xs : List (DocumentChunk E S))
      → map f (map g xs) ≡ map (λ x. f (g x)) xs
  map-compose f g [] = refl
  map-compose f g (x ∷ xs) = ap (λ zs. f (g x) ∷ zs) (map-compose f g xs)

  new_hidden :
      (p r : DocumentProjection) (c : DocumentChunk E S)
      → IsNew p c
      → same_scope p r ≡ false
      → is_shown r (show_chunk p.projection_id c) ≡ false
  new_hidden p r c (same, owner, base, document) apart =
      scope_apart p r (show_chunk p.projection_id c) (ground (arith, owner)) (ground (arith, base))
        (ground (arith, document)) apart

  others_after :
      (p r : DocumentProjection) (cs : List DocumentChunkPayload) (es : List E)
      (ss : List (Option S)) (db : Db E S)
      → IsWellFormed db
      → find_projection p.projection_id db.projections ≡ some p
      → is_staging p.status ≡ true
      → same_scope p r ≡ false
      → map payload_of
          (keep (is_shown r) (swapped_chunks p db.projections (new_chunks p cs es ss) db.chunks))
        ≡ visible r db
  others_after p r cs es ss db w at_p stage apart =
      let olds = map (retire_chunk (old_projection_ids p db.projections)) db.chunks in
      let news : List (DocumentChunk E S) = new_chunks p cs es ss in
      let both : DocumentChunk E S → DocumentChunk E S =
        λ c. show_chunk p.projection_id (retire_chunk (old_projection_ids p db.projections) c) in
      let new_part : keep (is_shown r) (map (show_chunk p.projection_id) news) ≡ [] =
        keep_none (is_shown r) _ (
          All-of_map _ (show_chunk p.projection_id) news
            (All-map _ _ news (λ c n. new_hidden p r c n apart) (new_chunks-IsNew p cs es ss))) in
      let fused : map (show_chunk p.projection_id) olds ≡ map both db.chunks =
        map-compose (show_chunk p.projection_id)
          (retire_chunk (old_projection_ids p db.projections)) db.chunks in
      let kept : map payload_of (keep (is_shown r) (map both db.chunks)) ≡ visible r db =
        visible-map r both db.chunks (
          All-map _ _ db.chunks (λ c s. untouched db.projections p r c w.keyed at_p stage apart s)
            w.placed) in
      let split = map-append (show_chunk p.projection_id) olds news in
      let parts =
        keep-append (is_shown r) (map (show_chunk p.projection_id) olds)
          (map (show_chunk p.projection_id) news) in
      let whole : keep (is_shown r) (map (show_chunk p.projection_id) (olds ++ news))
          ≡ keep (is_shown r) (map both db.chunks) ++ [] =
        cc (split, parts, new_part, fused) in
      ap (map payload_of) (whole ∙ append-nil (keep (is_shown r) (map both db.chunks))) ∙ kept

module _ (py : Python) {E S : Type 0} where
  -- Seen as a store of the visible chunks of each document, an activation of well-formed tables that
  -- returns True is one update: the document of the projection gets the chunks that preparing it gives,
  -- and every other document keeps its own.
  pub activate_refines :
      (now : ℕ) (prepared : PreparedProjection) (es : List E) (ss : List (Option S)) (db : Db E S)
      → IsWellFormed db
      → (activate_projection py now prepared es ss db).0 ≡ ok true
      → (p : DocumentProjection) × (rechecked : PreparedProjection) × (prepare_projection py p
            db.batches
          ≡ ok rechecked)
        × (find_projection prepared.projection_id db.projections ≡ some p)
        × ((r : DocumentProjection)
            → visible r (activate_projection py now prepared es ss db).1
              ≡ (if same_scope p r then rechecked.chunks else visible r db))
  activate_refines now prepared es ss db w is_ok = elim (activate_cases py now prepared es ss db) [
    | inl (same, not_ok) ↦ absurd (not_ok is_ok)
    | inr (returned, done) ↦
        let p = done.projection in
        let at_p : find_projection p.projection_id db.projections ≡ some p =
          cc (done.found, key-find prepared.projection_id db.projections done.found) in
        let rows : List (DocumentChunk E S) =
          swapped_chunks p db.projections (new_chunks p done.rechecked.chunks es ss) db.chunks in
        (
          p,
          done.rechecked,
          done.prepares,
          done.found,
          λ r. elim (Bool-cases (same_scope p r)) [
            | inl one ↦
                ap (visible r) done.result
                ∙ (ap (map payload_of)
                      (keep_same (is_shown r) (is_shown p) rows (λ c. scope_same p r c one))
                    ∙ (shown_after py p done.rechecked.chunks es ss db w at_p done.stage
                          done.embedded done.sparse
                        ∙ ground (arith, one)))
            | inr apart ↦
                ap (visible r) done.result
                ∙ (others_after p r done.rechecked.chunks es ss db w at_p done.stage apart
                    ∙ ground (arith, apart))
          ],
        )
  ]
