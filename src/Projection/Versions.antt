-- ===== src/Projection/Versions.antt =====
-- What holds of the tables after any transactions: one active version of a document, and chunks that
-- are active just with their projection.
use reminder.Prelude.{
  String, ◌≡◌, sym, ap, ◌∙◌, inl, inr, true, false, none, some, List, [], ◌∷◌, ◌++◌, map, All,
  All-map, ◌==◌, if◌then◌else◌, arith, Option-cases, find_row-map, find_row-append,
  find_row-append_some, IsKeyed, IsKeyed-map, IsKeyed-append,
}
use mathlib.Core.Option
use reminder.Projection.Record.{is_active_status, is_settled, DocumentProjection, DocumentChunk, Db}
use reminder.Projection.Stage.{find_projection}
use reminder.Projection.Activate.{update_projection, same_scope, fail_staging}

-- A row of a settled projection, active just if the projection is, in its scope.
pub record IsPlaced {E S : Type 0} (rows : List DocumentProjection) (c : DocumentChunk E S)
    : Type 0 where
  pub projection : DocumentProjection
  pub found : find_projection c.projection_id rows ≡ some projection
  pub settled : is_settled projection.status ≡ true
  pub follows : c.is_active ≡ is_active_status projection.status
  pub owner : c.owner_id ≡ projection.owner_id
  pub base : c.knowledge_base_id ≡ projection.knowledge_base_id
  pub document : c.document_id ≡ projection.document_id

pub record IsWellFormed {E S : Type 0} (db : Db E S) : Type 0 where
  pub keyed : IsKeyed (λ p. p.projection_id) db.projections
  pub one_active :
      (j k : String) (p q : DocumentProjection)
      → find_projection j db.projections ≡ some p
      → find_projection k db.projections ≡ some q
      → is_active_status p.status ≡ true
      → is_active_status q.status ≡ true
      → same_scope p q ≡ true
      → j ≡ k
  pub placed : All (IsPlaced db.projections) db.chunks

pub find-map :
    (f : DocumentProjection → DocumentProjection)
    → ((p : DocumentProjection) → (f p).projection_id ≡ p.projection_id)
    → (i : String) (rows : List DocumentProjection)
    → find_projection i (map f rows) ≡ Option.map f (find_projection i rows)
unfolding find_projection
find-map f same i rows = find_row-map (λ p. p.projection_id) i f rows same

-- The row behind an updated one.
pub found_behind :
    (f : DocumentProjection → DocumentProjection)
    → ((p : DocumentProjection) → (f p).projection_id ≡ p.projection_id)
    → (i : String) (rows : List DocumentProjection) {q : DocumentProjection}
    → find_projection i (map f rows) ≡ some q
    → (p : DocumentProjection) × (find_projection i rows ≡ some p) × (f p ≡ q)
found_behind f same i rows {q} e = elim (Option-cases (find_projection i rows)) [
  | inl absent ↦ absurd (cc (find-map f same i rows, absent, e))
  | inr (p, found) ↦
      let is_it : some (f p) ≡ some q = cc (find-map f same i rows, found, e) in
      (p, found, ground (arith, is_it))
]

-- Behind an insertion, an active row is an old one.
found_before :
    (row : DocumentProjection) (i : String) (rows : List DocumentProjection)
    {q : DocumentProjection}
    → is_active_status row.status ≡ false
    → find_projection i (rows ++ (row ∷ [])) ≡ some q
    → is_active_status q.status ≡ true
    → find_projection i rows ≡ some q
unfolding find_projection
found_before row i rows {q} fresh e is_active = elim (Option-cases (find_projection i rows)) [
  | inl absent ↦
      let at_end = find_row-append (λ p. p.projection_id) i rows row absent in
      absurd (ground (arith, at_end, e, fresh, is_active))
  | inr (p, found) ↦
      let still = find_row-append_some (λ p. p.projection_id) i rows (row ∷ []) found in
      cc (still, e, found)
]

module _ {E S : Type 0} where
  IsPlaced-append :
      (row : DocumentProjection) (rows : List DocumentProjection) (c : DocumentChunk E S)
      → IsPlaced rows c
      → IsPlaced (rows ++ (row ∷ [])) c
  unfolding find_projection
  IsPlaced-append row rows c s = record {
    projection = s.projection;
    found = find_row-append_some (λ p. p.projection_id) c.projection_id rows (row ∷ []) s.found;
    settled = s.settled;
    follows = s.follows;
    owner = s.owner;
    base = s.base;
    document = s.document;
  }

  -- The insertion of a staging projection.
  pub append-IsWellFormed :
      (db : Db E S) (row : DocumentProjection)
      → find_projection row.projection_id db.projections ≡ none
      → is_active_status row.status ≡ false
      → IsWellFormed db
      → IsWellFormed (record db { projections = db.projections ++ (row ∷ []) })
  unfolding find_projection
  append-IsWellFormed db row absent fresh w = record {
    keyed = IsKeyed-append (λ p. p.projection_id) db.projections row absent w.keyed;
    one_active = λ j k p q ep eq ap aq same.
        w.one_active j k p q (found_before row j db.projections fresh ep ap)
          (found_before row k db.projections fresh eq aq) ap aq same;
    placed = All-map _ _ db.chunks (λ c. IsPlaced-append row db.projections c) w.placed;
  }

  -- `mark_failed`
  pub update-IsWellFormed :
      (db : Db E S) (i reason : String)
      → IsWellFormed db
      → IsWellFormed
          (record db { projections = update_projection i (fail_staging reason) db.projections })
  update-IsWellFormed db i reason w =
      let f : DocumentProjection → DocumentProjection =
        λ p. if p.projection_id == i then fail_staging reason p else p in
      let key : (p : DocumentProjection) → (f p).projection_id ≡ p.projection_id =
        λ p. ground arith in
      let lower : (p : DocumentProjection) → is_active_status (f p).status ≡ true → f p ≡ p =
        λ p a. ground (arith, a) in
      record {
        keyed = IsKeyed-map (λ p. p.projection_id) f db.projections key w.keyed;
        one_active = λ j k p q ep eq ap aq same.
            let (p0, fp, sp) = found_behind f key j db.projections ep in
            let (q0, fq, sq) = found_behind f key k db.projections eq in
            let is_p : p0 ≡ p = sym (lower p0 (cc (sp, ap))) ∙ sp in
            let is_q : q0 ≡ q = sym (lower q0 (cc (sq, aq))) ∙ sq in
            w.one_active j k p q (cc (fp, is_p)) (cc (fq, is_q)) ap aq same;
        placed =
            All-map _ _ db.chunks
              (λ c s. record {
                projection = f s.projection;
                found = find-map f key c.projection_id db.projections ∙ ap (Option.map f) s.found;
                settled = ground (arith, s.settled);
                follows = ground (arith, s.settled, s.follows);
                owner = ground (arith, s.owner);
                base = ground (arith, s.base);
                document = ground (arith, s.document);
              })
              w.placed;
      }
