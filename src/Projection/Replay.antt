-- ===== src/Projection/Replay.antt =====
-- A batch that is delivered again.
use reminder.Prelude.{
  ℤ, String, ◌≡◌, refl, sym, ap, ◌∙◌, inl, inr, Bool, true, false, Option, none, some, is_some,
  List, [], ◌∷◌, ◌++◌, ◌==◌, eq_refl, arith, Option-cases,
}
use reminder.Projection.Record.{
  Status, is_failed, DocumentProjectionPayload, DocumentProjection, DocumentProjectionBatch, Db,
  Result, ok, raised, Python,
}
use reminder.Projection.Stage.{
  validate_payload, find_projection, insert_projection, projection_of, same_metadata, find_batch,
  snapshot_hash, batch_of, place_batch, store_under, stored, store_projection_batch, stage_valid,
  stage_projection_batch,
}

insert_present :
    (p : DocumentProjection) (rows : List DocumentProjection) {q : DocumentProjection}
    → find_projection p.projection_id rows ≡ some q
    → insert_projection p rows ≡ rows
unfolding insert_projection
insert_present p rows e = ground (arith, e)

module _ (py : Python) where
  found_batch :
      (payload : DocumentProjectionPayload) (rows : List DocumentProjectionBatch)
      → find_batch payload.projection_id payload.batch_index rows ≡ none
      → find_batch payload.projection_id payload.batch_index (rows ++ (batch_of py payload ∷ []))
        ≡ some (batch_of py payload)
  unfolding find_batch
  found_batch payload [] absent = ground (arith, eq_refl payload.projection_id)
  found_batch payload (b ∷ rows) absent = ground (arith, absent, found_batch payload rows)

  place_again :
      (payload : DocumentProjectionPayload) (status : Status)
      (rows later : List DocumentProjectionBatch) (b : Bool)
      → place_batch py payload status
          (find_batch payload.projection_id payload.batch_index rows)
          rows
        ≡ ok (b, later)
      → place_batch py payload status
          (find_batch payload.projection_id payload.batch_index later)
          later
        ≡ ok (false, later)
  place_again payload status rows later b e =
      elim (Option-cases (find_batch payload.projection_id payload.batch_index rows)) [
        | inl absent ↦
            let added : rows ++ (batch_of py payload ∷ []) ≡ later = ground (arith, absent, e) in
            let there : find_batch payload.projection_id payload.batch_index later
                ≡ some (batch_of py payload) =
              cc (found_batch payload rows absent, added) in
            ground (arith, there, eq_refl (snapshot_hash py payload.chunks))
        | inr (existing, there) ↦
            let same : rows ≡ later = ground (arith, there, e) in
            let again : find_batch payload.projection_id payload.batch_index later ≡ some existing =
              cc (there, same) in
            let hash : (existing.payload_hash == snapshot_hash py payload.chunks) ≡ true =
              ground (arith, there, e) in
            ground (arith, again, hash)
      ]

  store_under_again :
      (payload : DocumentProjectionPayload) (expected : DocumentProjection)
      (o : Option DocumentProjection) (rows later : List DocumentProjectionBatch) (b : Bool)
      → store_under py payload expected o rows ≡ ok (b, later)
      → (store_under py payload expected o later ≡ ok (false, later)) × (is_some o ≡ true)
  store_under_again payload expected none rows later b e = absurd (ground (arith, e))
  store_under_again payload expected (some p) rows later b e =
      let metadata : same_metadata p expected ≡ true = ground (arith, e) in
      let not_failed : is_failed p.status ≡ false = ground (arith, e) in
      let placed : place_batch py payload p.status
            (find_batch payload.projection_id payload.batch_index rows) rows
          ≡ ok (b, later) =
        ground (arith, e, metadata, not_failed) in
      (rw (metadata, not_failed) (place_again payload p.status rows later b placed), refl)

module _ (py : Python) {E S : Type 0} where
  stored_ok :
      (projections : List DocumentProjection) (db : Db E S)
      (r : Result (Bool × List DocumentProjectionBatch)) {b : Bool}
      → (stored py projections db r).0 ≡ ok b
      → (later : List DocumentProjectionBatch) × (r ≡ ok (b, later))
        × ((stored py projections db r).1
            ≡ record db { projections = projections; batches = later })
  stored_ok projections db (ok (c, later)) e = (later, ground (arith, e), refl)
  stored_ok projections db (raised x) e = absurd (ground (arith, e))

  store_shape :
      (payload : DocumentProjectionPayload) (owner_id : ℤ) (base : String) (db : Db E S)
      → store_projection_batch py payload owner_id base db
        ≡ stored py (insert_projection (projection_of payload owner_id base) db.projections) db (
            store_under py payload
              (projection_of payload owner_id base)
              (find_projection payload.projection_id
                (insert_projection (projection_of payload owner_id base) db.projections))
              db.batches)
  unfolding store_projection_batch
  store_shape payload owner_id base db = refl

  store_again :
      (payload : DocumentProjectionPayload) (owner_id : ℤ) (base : String) (db : Db E S) (b : Bool)
      → (store_projection_batch py payload owner_id base db).0 ≡ ok b
      → store_projection_batch py payload owner_id base
          (store_projection_batch py payload owner_id base db).1
        ≡ (ok false, (store_projection_batch py payload owner_id base db).1)
  store_again payload owner_id base db b e =
      let expected = projection_of payload owner_id base in
      let rows = insert_projection expected db.projections in
      let found = find_projection payload.projection_id rows in
      let (later, under, whole) =
        stored_ok rows db (store_under py payload expected found db.batches)
          (sym (ap (λ r. r.0) (store_shape payload owner_id base db)) ∙ e) in
      let (again, is_there) =
        store_under_again py payload expected found db.batches later b under in
      let kept : insert_projection expected rows ≡ rows = elim (Option-cases found) [
        | inl absent ↦ absurd (ground (arith, absent, is_there))
        | inr (q, there) ↦ insert_present expected rows there
      ] in
      let db' : Db E S = record db { projections = rows; batches = later } in
      let first : (store_projection_batch py payload owner_id base db).1 ≡ db' =
        ap (λ r. r.1) (store_shape payload owner_id base db) ∙ whole in
      let second : store_projection_batch py payload owner_id base db' ≡ (ok false, db') =
        cc (store_shape payload owner_id base db', kept, again) in
      cc (first, second)

  -- A batch that was staged once, and is staged again at once, is accepted without effect: the receipt
  -- says that nothing was created, and no table changes.
  pub stage_again :
      (payload : DocumentProjectionPayload) (owner_id : ℤ) (base : Option String) (db : Db E S)
      (b : Bool)
      → (stage_projection_batch py payload owner_id base db).0 ≡ ok b
      → stage_projection_batch py payload owner_id base
          (stage_projection_batch py payload owner_id base db).1
        ≡ (ok false, (stage_projection_batch py payload owner_id base db).1)
  unfolding stage_projection_batch
  stage_again payload owner_id none db b e = absurd (ground (arith, e))
  stage_again payload owner_id (some base) db b e = go (validate_payload py payload owner_id base) e
    where
      go :
          (r : Result (Unit {0}))
          → (stage_valid py r payload owner_id base db).0 ≡ ok b
          → stage_valid py r payload owner_id base (stage_valid py r payload owner_id base db).1
            ≡ (ok false, (stage_valid py r payload owner_id base db).1)
      go (ok checked) e = store_again payload owner_id base db b e
      go (raised x) e = absurd (ground (arith, e))
