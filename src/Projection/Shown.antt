-- ===== src/Projection/Shown.antt =====
-- What retrieval sees behind an activation.
use reminder.Prelude.{
  ℤ, pos, negsuc, String, ◌≡◌, refl, ap, ◌∙◌, inl, inr, Bool, true, false, ◌&&◌, Option, some, List,
  [], ◌∷◌, ◌++◌, map, some_of, keep, All, All-map, All-of_map, length, eqb_int, ◌==◌, eq_iff, arith,
  Bool-cases, IsKeyed, some_of-keep,
}
use reminder.Projection.Record.{
  is_staging, DocumentChunkPayload, DocumentProjection, DocumentChunk, Db, Python,
}
use reminder.Projection.Stage.{find_projection}
use reminder.Projection.Prepare.{}
use reminder.Projection.Activate.{
  same_scope, is_old, old_projection_ids, retire_chunk, show_chunk, new_chunk, new_chunks,
  swapped_chunks,
}
use reminder.Projection.Versions.{IsPlaced, IsWellFormed}
use reminder.Projection.Swap.{key-find, IsNew, new_chunks-IsNew}
use reminder.Projection.Outcome.{}

pub eqb_int_refl : (a : ℤ) → eqb_int a a ≡ true
eqb_int_refl (pos n) = ground arith
eqb_int_refl (negsuc n) = ground arith

module _ {E S : Type 0} where
  -- The active chunks of the document of a projection.
  abbrev pub is_shown : DocumentProjection → DocumentChunk E S → Bool
  is_shown p c =
      c.is_active
      && eqb_int c.owner_id p.owner_id
      && (c.knowledge_base_id == p.knowledge_base_id)
      && (c.document_id == p.document_id)

  -- A row read back as the payload that it was made of.
  abbrev pub payload_of : DocumentChunk E S → DocumentChunkPayload
  payload_of c = record {
    chunk_id = c.chunk_id;
    chunk_index = c.chunk_index;
    content = c.content;
    content_hash = c.content_hash;
    page_no = c.page_no;
    section_path = c.section_path;
  }

  pub old_hidden :
      (rows : List DocumentProjection) (p : DocumentProjection) (c : DocumentChunk E S)
      → IsKeyed (λ p. p.projection_id) rows
      → find_projection p.projection_id rows ≡ some p
      → is_staging p.status ≡ true
      → IsPlaced rows c
      → is_shown p (show_chunk p.projection_id (retire_chunk (old_projection_ids p rows) c)) ≡ false
  unfolding find_projection
  old_hidden rows p c keyed at_p stage s =
      let q = s.projection in
      let kq : q.projection_id ≡ c.projection_id = key-find c.projection_id rows s.found in
      let met : some_of (λ i. i == c.projection_id) (old_projection_ids p rows) ≡ is_old p q =
        some_of-keep (λ p. p.projection_id) (is_old p) c.projection_id rows keyed s.found in
      let apart : (c.projection_id == p.projection_id) ≡ false =
        elim (Bool-cases (c.projection_id == p.projection_id)) [
          | inl e ↦
              let row : some q ≡ some p =
                cc (s.found, at_p, (eq_iff c.projection_id p.projection_id).0 e) in
              absurd (ground (arith, row, stage, s.settled))
          | inr e ↦ e
        ] in
      let apart_q : (q.projection_id == p.projection_id) ≡ false = cc (apart, kq) in
      let scope : same_scope p q ≡ (
          eqb_int c.owner_id p.owner_id
          && (c.knowledge_base_id == p.knowledge_base_id)
          && (c.document_id == p.document_id)) =
        cc (s.owner, s.base, s.document) in
      ground (arith, s.follows, apart, apart_q, met, scope)

  new_shown :
      (p : DocumentProjection) (c : DocumentChunk E S)
      → IsNew p c
      → is_shown p (show_chunk p.projection_id c) ≡ true
  new_shown p c (same, owner, base, document) = ground (
    arith,
    (eq_iff c.projection_id p.projection_id).1 same,
    (eq_iff c.knowledge_base_id p.knowledge_base_id).1 base,
    (eq_iff c.document_id p.document_id).1 document,
    eqb_int_refl p.owner_id,
    owner,
  )

  pub keep-append :
      (f : DocumentChunk E S → Bool) (xs ys : List (DocumentChunk E S))
      → keep f (xs ++ ys) ≡ keep f xs ++ keep f ys
  keep-append f [] ys = refl
  keep-append f (x ∷ xs) ys = ground (arith, keep-append f xs ys)

  pub keep_none :
      (f : DocumentChunk E S → Bool) (xs : List (DocumentChunk E S))
      → All (λ x. f x ≡ false) xs
      → keep f xs ≡ []
  keep_none f [] h = refl
  keep_none f (x ∷ xs) h = ground (arith, h.0, keep_none f xs h.1)

  keep_whole :
      (f : DocumentChunk E S → Bool) (xs : List (DocumentChunk E S))
      → All (λ x. f x ≡ true) xs
      → keep f xs ≡ xs
  keep_whole f [] h = refl
  keep_whole f (x ∷ xs) h = ground (arith, h.0, keep_whole f xs h.1)

  pub map-append :
      (f : DocumentChunk E S → DocumentChunk E S) (xs ys : List (DocumentChunk E S))
      → map f (xs ++ ys) ≡ map f xs ++ map f ys
  map-append f [] ys = refl
  map-append f (x ∷ xs) ys = ap (λ zs. f x ∷ zs) (map-append f xs ys)

  payloads-new_chunks :
      (p : DocumentProjection) (i : String) (cs : List DocumentChunkPayload) (es : List E)
      (ss : List (Option S))
      → length es ≡ length cs
      → length ss ≡ length cs
      → map payload_of (map (show_chunk i) (new_chunks p cs es ss)) ≡ cs
  unfolding new_chunks
  payloads-new_chunks p i [] es ss le ls = refl
  payloads-new_chunks p i (c ∷ cs) [] ss le ls = absurd (omega (arith, le))
  payloads-new_chunks p i (c ∷ cs) (e ∷ es) [] le ls = absurd (omega (arith, ls))
  payloads-new_chunks p i (c ∷ cs) (e ∷ es) (s ∷ ss) le ls =
      let rest : map payload_of (map (show_chunk i) (new_chunks p cs es ss)) ≡ cs =
        payloads-new_chunks p i cs es ss (omega (arith, le)) (omega (arith, ls)) in
      let head : payload_of (show_chunk i (new_chunk p c e s)) ≡ c = ground arith in cc (rest, head)

module _ (py : Python) {E S : Type 0} where
  pub shown_after :
      (p : DocumentProjection) (cs : List DocumentChunkPayload) (es : List E) (ss : List (Option S))
      (db : Db E S)
      → IsWellFormed db
      → find_projection p.projection_id db.projections ≡ some p
      → is_staging p.status ≡ true
      → length es ≡ length cs
      → length ss ≡ length cs
      → map payload_of
          (keep (is_shown p) (swapped_chunks p db.projections (new_chunks p cs es ss) db.chunks))
        ≡ cs
  shown_after p cs es ss db w at_p stage le ls =
      let olds = map (retire_chunk (old_projection_ids p db.projections)) db.chunks in
      let news : List (DocumentChunk E S) = new_chunks p cs es ss in
      let old_part : keep (is_shown p) (map (show_chunk p.projection_id) olds) ≡ [] =
        keep_none (is_shown p) _ (
          All-of_map _ (show_chunk p.projection_id) olds (
            All-of_map _ (retire_chunk (old_projection_ids p db.projections)) db.chunks (
              All-map _ _ db.chunks (λ c s. old_hidden db.projections p c w.keyed at_p stage s)
                w.placed))) in
      let new_part : keep (is_shown p) (map (show_chunk p.projection_id) news)
          ≡ map (show_chunk p.projection_id) news =
        keep_whole (is_shown p) _ (
          All-of_map _ (show_chunk p.projection_id) news
            (All-map _ _ news (λ c n. new_shown p c n) (new_chunks-IsNew p cs es ss))) in
      let split = map-append (show_chunk p.projection_id) olds news in
      let parts =
        keep-append (is_shown p) (map (show_chunk p.projection_id) olds)
          (map (show_chunk p.projection_id) news) in
      let whole : keep (is_shown p) (map (show_chunk p.projection_id) (olds ++ news))
          ≡ map (show_chunk p.projection_id) news =
        cc (split, parts, old_part, new_part) in
      ap (map payload_of) whole ∙ payloads-new_chunks p p.projection_id cs es ss le ls
