-- ===== src/Projection/Visible.antt =====
-- Any sequence of the transactions of `stage_projection_batch` and `finalize_projection`.
use reminder.Prelude.{
  find_row, ℕ, ℤ, String, ◌≡◌, refl, sym, subst, ◌⊎◌, inl, inr, Bool, true, false, Option, none,
  some, List, [], ◌∷◌, ◌++◌, All, arith, Bool-cases, Option-cases,
}
use reminder.Projection.Record.{
  is_staging, is_active_status, is_settled, DocumentProjectionPayload, DocumentProjection,
  DocumentProjectionBatch, Db, integrity_error, incomplete_projection, lookup_error, database_error,
  embedding_error, Result, ok, raised, Python,
}
use reminder.Projection.Stage.{
  find_projection, has_version, insert_projection, projection_of, store_under, stored,
  store_projection_batch, stage_valid, validate_payload, stage_projection_batch,
}
use reminder.Projection.Prepare.{PreparedProjection, prepare_projection}
use reminder.Projection.Activate.{
  same_scope, activate_projection, mark_failed, marking, begin_prepared, begin_row, begin_finalize,
  end_finalize,
}
use reminder.Projection.Versions.{IsPlaced, IsWellFormed, append-IsWellFormed, update-IsWellFormed}
use reminder.Projection.Swap.{key-find, swap-IsWellFormed}
use reminder.Projection.Outcome.{activate_cases}

-- One transaction, with all that it is given from outside: what `finalize_projection` prepared
-- before, the embeddings and the text of an exception are any.
pub data Op (E S : Type 0) : Type 0 where
  stage : DocumentProjectionPayload → (owner_id : ℤ) → (knowledge_base_id : Option String) → Op E S
  begin_final : String → (reason : String) → Op E S
  end_final :
      (now : ℕ)
      → String
      → (reason : String) → PreparedProjection
      → List E
      → List (Option S)
      → Op E S

abbrev pub empty : {E S : Type 0} → Db E S
empty = record { projections = []; batches = []; chunks = [] }

insert_cases :
    (p : DocumentProjection) (rows : List DocumentProjection)
    → (insert_projection p rows ≡ rows)
      ⊎ ((find_projection p.projection_id rows ≡ none)
          × (insert_projection p rows ≡ rows ++ (p ∷ [])))
unfolding insert_projection
insert_cases p rows = elim (Option-cases (find_projection p.projection_id rows)) [
  | inl e ↦ elim (Bool-cases (has_version p rows)) [
    | inl taken ↦ inl (ground (arith, e, taken))
    | inr free ↦ inr (e, ground (arith, e, free))
  ]
  | inr (q, e) ↦ inl (ground (arith, e))
]

module _ (py : Python) {E S : Type 0} where
  abbrev pub apply : Op E S → Db E S → Db E S
  apply (stage payload owner_id knowledge_base_id) db =
      (stage_projection_batch py payload owner_id knowledge_base_id db).1
  apply (begin_final i reason) db = (begin_finalize py i reason db).1
  apply (end_final now i reason prepared es ss) db =
      (end_finalize py now i reason prepared es ss db).1

  abbrev pub apply_all : List (Op E S) → Db E S → Db E S
  apply_all [] db = db
  apply_all (op ∷ ops) db = apply_all ops (apply op db)

  insert-IsWellFormed :
      (p : DocumentProjection) (db : Db E S)
      → is_active_status p.status ≡ false
      → IsWellFormed db
      → IsWellFormed (record db { projections = insert_projection p db.projections })
  insert-IsWellFormed p db fresh w = elim (insert_cases p db.projections) [
    | inl e ↦ subst (λ rows. IsWellFormed (record db { projections = rows })) (sym e) w
    | inr (absent, e) ↦
        subst (λ rows. IsWellFormed (record db { projections = rows })) (sym e)
          (append-IsWellFormed db p absent fresh w)
  ]

  store-IsWellFormed :
      (payload : DocumentProjectionPayload) (owner_id : ℤ) (base : String) (db : Db E S)
      → IsWellFormed db
      → IsWellFormed (store_projection_batch py payload owner_id base db).1
  unfolding store_projection_batch
  store-IsWellFormed payload owner_id base db w = go (store_under py payload expected _ db.batches)
    where
      expected : DocumentProjection
      expected = projection_of payload owner_id base

      inserted :
          IsWellFormed (record db { projections = insert_projection expected db.projections })
      inserted = insert-IsWellFormed expected db refl w

      go :
          (r : Result (Bool × List DocumentProjectionBatch))
          → IsWellFormed (stored py (insert_projection expected db.projections) db r).1
      go (ok (created, batches)) = record {
        keyed = inserted.keyed;
        one_active = inserted.one_active;
        placed = inserted.placed;
      }
      go (raised e) = w

  stage-IsWellFormed :
      (payload : DocumentProjectionPayload) (owner_id : ℤ) (base : Option String) (db : Db E S)
      → IsWellFormed db
      → IsWellFormed (stage_projection_batch py payload owner_id base db).1
  unfolding stage_projection_batch
  stage-IsWellFormed payload owner_id none db w = w
  stage-IsWellFormed payload owner_id (some base) db w =
      go (validate_payload py payload owner_id base)
    where
      go : (r : Result (Unit {0})) → IsWellFormed (stage_valid py r payload owner_id base db).1
      go (ok checked) = store-IsWellFormed payload owner_id base db w
      go (raised e) = w

  mark-IsWellFormed :
      (i reason : String) (db : Db E S) → IsWellFormed db → IsWellFormed (mark_failed i reason db)
  unfolding mark_failed
  mark-IsWellFormed i reason db w = update-IsWellFormed db i reason w

  begin-IsWellFormed :
      (i reason : String) (db : Db E S)
      → IsWellFormed db
      → IsWellFormed (begin_finalize py i reason db).1
  unfolding begin_finalize
  begin-IsWellFormed i reason db w = go (find_projection i db.projections)
    where
      prepared :
          (name : String) (r : Result PreparedProjection)
          → IsWellFormed (begin_prepared i reason name r db).1
      prepared name (ok p) = w
      prepared name (raised integrity_error) = mark-IsWellFormed i reason db w
      prepared name (raised incomplete_projection) = w
      prepared name (raised lookup_error) = w
      prepared name (raised database_error) = w
      prepared name (raised embedding_error) = w

      go : (o : Option DocumentProjection) → IsWellFormed (begin_row py i reason o db).1
      go none = w
      go (some p) = elim (Bool-cases (is_settled p.status)) [
        | inl e ↦ rw e w
        | inr e ↦ elim (Bool-cases (is_staging p.status)) [
          | inl e' ↦ rw (e, e') (prepared p.file_name (prepare_projection py p db.batches))
          | inr e' ↦ rw (e, e') w
        ]
      ]

  end-IsWellFormed :
      (now : ℕ) (i reason : String) (prepared : PreparedProjection) (es : List E)
      (ss : List (Option S)) (db : Db E S)
      → IsWellFormed db
      → IsWellFormed (end_finalize py now i reason prepared es ss db).1
  unfolding end_finalize
  end-IsWellFormed now i reason prepared es ss db w =
      marked (activate_projection py now prepared es ss db)
        (elim (activate_cases py now prepared es ss db) [
          | inl (same, not_ok) ↦ subst IsWellFormed (sym same) w
          | inr (is_ok, done) ↦ subst IsWellFormed (sym done.result) (
              swap-IsWellFormed now db done.projection done.rechecked.chunks es ss w
                (cc (done.found, key-find prepared.projection_id db.projections done.found))
                done.stage)
        ])
    where
      marked : (r : Result Bool × Db E S) → IsWellFormed r.1 → IsWellFormed (marking i reason r).1
      marked (ok b, later) v = v
      marked (raised integrity_error, later) v = mark-IsWellFormed i reason later v
      marked (raised incomplete_projection, later) v = v
      marked (raised lookup_error, later) v = v
      marked (raised database_error, later) v = v
      marked (raised embedding_error, later) v = v

  pub apply-IsWellFormed :
      (op : Op E S) (db : Db E S) → IsWellFormed db → IsWellFormed (apply op db)
  apply-IsWellFormed (stage payload owner_id base) db w =
      stage-IsWellFormed payload owner_id base db w
  apply-IsWellFormed (begin_final i reason) db w = begin-IsWellFormed i reason db w
  apply-IsWellFormed (end_final now i reason prepared es ss) db w =
      end-IsWellFormed now i reason prepared es ss db w

  pub apply_all-IsWellFormed :
      (ops : List (Op E S)) (db : Db E S) → IsWellFormed db → IsWellFormed (apply_all ops db)
  apply_all-IsWellFormed [] db w = w
  apply_all-IsWellFormed (op ∷ ops) db w =
      apply_all-IsWellFormed ops (apply op db) (apply-IsWellFormed op db w)

  pub empty-IsWellFormed : IsWellFormed {E = E} {S = S} empty
  unfolding find_projection find_row
  empty-IsWellFormed = record {
    keyed = tt;
    one_active = λ j k p q ep eq ap aq same. absurd (ground (arith, ep));
    placed = tt;
  }

  -- Whatever batches are staged and projections finalized, in any order and with any transactions of
  -- others between the two halves of a finalization, two active projections of one document are the
  -- same projection.
  pub one_active_version :
      (ops : List (Op E S)) (j k : String) (p q : DocumentProjection)
      → find_projection j (apply_all ops empty).projections ≡ some p
      → find_projection k (apply_all ops empty).projections ≡ some q
      → is_active_status p.status ≡ true
      → is_active_status q.status ≡ true
      → same_scope p q ≡ true
      → j ≡ k
  one_active_version ops = (apply_all-IsWellFormed ops empty empty-IsWellFormed).one_active

  -- Whatever batches are staged and projections finalized, every stored chunk belongs to a projection
  -- of the same owner, knowledge base and document, which is settled, and the chunk is visible just if
  -- that projection is active.
  pub chunks-IsPlaced :
      (ops : List (Op E S))
      → All (IsPlaced (apply_all ops empty).projections) (apply_all ops empty).chunks
  chunks-IsPlaced ops = (apply_all-IsWellFormed ops empty empty-IsWellFormed).placed
