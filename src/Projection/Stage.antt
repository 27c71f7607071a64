-- ===== src/Projection/Stage.antt =====
-- `stage_projection_batch`, and `store_projection_batch` of
-- app/mneme/memoria/server/repositories/projections.py.
use reminder.Prelude.{
  ℕ, ℤ, pos, negsuc, String, Bool, true, false, not, ◌&&◌, Option, none, some, is_some, List, [],
  ◌∷◌, ◌++◌, leb, ltb, eqb, leb_int, eqb_int, ◌==◌, if◌then◌else◌, chars, find_row,
}
use reminder.Projection.Record.{
  Status, staging, is_staging, is_failed, DocumentChunkPayload, DocumentProjectionPayload,
  DocumentProjection, DocumentProjectionBatch, Db, integrity_error, Result, ok, raised, ◌>>◌,
  require, Python,
}

-- POSTGRES_INTEGER_MAX
abbrev pub integer_max : ℤ
integer_max = pos 2147483647

module _ (py : Python) where
  abbrev pub validate_sha256 : String → Result (Unit {0})
  validate_sha256 value = do
    require (eqb (chars value) 64)
    require (py.is_hex value)
    require (value == py.lower value)

  abbrev pub validate_identifier : String → (max_length : ℕ) → Result (Unit {0})
  validate_identifier value max_length =
      require (ltb 0 (chars value) && leb (chars value) max_length)

  -- page_no is None or lies in the range of the column
  abbrev pub page_fits : Option ℤ → Bool
  page_fits none = true
  page_fits (some n) = leb_int (negsuc 2147483646) n && leb_int n integer_max

  abbrev pub validate_chunk : DocumentChunkPayload → Result (Unit {0})
  validate_chunk chunk = do
    validate_identifier chunk.chunk_id 128
    require (leb_int (pos 0) chunk.chunk_index && leb_int chunk.chunk_index integer_max)
    require (page_fits chunk.page_no)
    validate_sha256 chunk.content_hash
    require (py.sha256 chunk.content == chunk.content_hash)

  abbrev pub validate_chunks : List DocumentChunkPayload → Result (Unit {0})
  validate_chunks [] = ok tt
  validate_chunks (chunk ∷ chunks) = do validate_chunk chunk; validate_chunks chunks

  -- The checks of `stage_projection_batch` before its transaction.
  unfoldable pub validate_payload :
      DocumentProjectionPayload → (owner_id : ℤ) → (knowledge_base_id : String) → Result (Unit {0})
  validate_payload payload owner_id knowledge_base_id = do
    validate_identifier knowledge_base_id 128
    validate_identifier payload.projection_id 64
    validate_identifier payload.document_id 128
    validate_identifier payload.document_version 128
    validate_identifier payload.file_name 512
    require (leb_int (pos 1) owner_id && leb_int owner_id integer_max)
    require (leb_int (pos payload.batch_count) integer_max)
    require (ltb payload.batch_index payload.batch_count)
    validate_sha256 payload.aggregate_hash
    validate_chunks payload.chunks

  -- `projection_batch_payload_hash`, and `_snapshot_hash`
  abbrev pub snapshot_hash : List DocumentChunkPayload → String
  snapshot_hash chunks = py.sha256 (py.dumps chunks)

unfoldable pub find_projection : String → List DocumentProjection → Option DocumentProjection
unfolding find_row
find_projection = find_row (λ p. p.projection_id)

-- The unique constraint on a version of a document.
abbrev pub same_version : DocumentProjection → DocumentProjection → Bool
same_version p q =
    eqb_int p.owner_id q.owner_id
    && (p.knowledge_base_id == q.knowledge_base_id)
    && (p.document_id == q.document_id)
    && (p.document_version == q.document_version)

abbrev pub has_version : DocumentProjection → List DocumentProjection → Bool
has_version p [] = false
has_version p (q ∷ rows) = let rest = has_version p rows in if same_version p q then true else rest

-- INSERT ... ON CONFLICT DO NOTHING
unfoldable pub insert_projection :
    DocumentProjection → List DocumentProjection → List DocumentProjection
unfolding find_projection
insert_projection p rows =
    if is_some (find_projection p.projection_id rows)
    then rows
    else if has_version p rows
    then rows
    else rows ++ (p ∷ [])

abbrev pub projection_of :
    DocumentProjectionPayload → (owner_id : ℤ) → (knowledge_base_id : String) → DocumentProjection
projection_of payload owner_id knowledge_base_id = record {
  projection_id = payload.projection_id;
  owner_id = owner_id;
  knowledge_base_id = knowledge_base_id;
  document_id = payload.document_id;
  document_version = payload.document_version;
  file_name = payload.file_name;
  batch_count = payload.batch_count;
  aggregate_hash = payload.aggregate_hash;
  status = staging;
  failure_reason = none;
  activated_at = none;
}

-- stored_metadata == expected_metadata
abbrev pub same_metadata : DocumentProjection → DocumentProjection → Bool
same_metadata p q =
    same_version p q
    && (p.file_name == q.file_name)
    && eqb p.batch_count q.batch_count
    && (p.aggregate_hash == q.aggregate_hash)

abbrev pub is_batch : String → ℕ → DocumentProjectionBatch → Bool
is_batch projection_id batch_index b =
    (b.projection_id == projection_id) && eqb b.batch_index batch_index

unfoldable pub find_batch :
    String → ℕ → List DocumentProjectionBatch → Option DocumentProjectionBatch
find_batch projection_id batch_index [] = none
find_batch projection_id batch_index (b ∷ rows) =
    let rest = find_batch projection_id batch_index rows in
    if is_batch projection_id batch_index b then some b else rest

module _ (py : Python) where
  abbrev pub batch_of : DocumentProjectionPayload → DocumentProjectionBatch
  batch_of payload = record {
    projection_id = payload.projection_id;
    batch_index = payload.batch_index;
    payload_hash = snapshot_hash py payload.chunks;
    chunks = payload.chunks;
  }

  -- From `existing` on: whether a batch is created, with the rows of the batches behind it.
  abbrev pub place_batch :
      DocumentProjectionPayload
      → Status
      → Option DocumentProjectionBatch
      → List DocumentProjectionBatch
      → Result (Bool × List DocumentProjectionBatch)
  place_batch payload status (some existing) rows =
      if existing.payload_hash == snapshot_hash py payload.chunks
      then ok (false, rows)
      else raised integrity_error
  place_batch payload status none rows =
      if is_staging status
      then ok (true, rows ++ (batch_of payload ∷ []))
      else raised integrity_error

  -- From the locked projection on.
  abbrev pub store_under :
      DocumentProjectionPayload
      → DocumentProjection
      → Option DocumentProjection
      → List DocumentProjectionBatch
      → Result (Bool × List DocumentProjectionBatch)
  store_under payload expected none rows = raised integrity_error
  store_under payload expected (some projection) rows =
      if not (same_metadata projection expected)
      then raised integrity_error
      else if is_failed projection.status
      then raised integrity_error
      else place_batch payload projection.status
          (find_batch payload.projection_id payload.batch_index rows) rows

module _ (py : Python) {E S : Type 0} where
  abbrev pub stored :
      List DocumentProjection
      → Db E S
      → Result (Bool × List DocumentProjectionBatch)
      → Result Bool × Db E S
  stored projections db (ok (created, batches)) =
      (ok created, record db { projections = projections; batches = batches })
  stored projections db (raised e) = (raised e, db)

  -- `store_projection_batch` in its transaction, which writes nothing where it raises.
  unfoldable pub store_projection_batch :
      DocumentProjectionPayload
      → (owner_id : ℤ) → (knowledge_base_id : String) → Db E S
      → Result Bool × Db E S
  unfolding insert_projection find_projection find_batch
  store_projection_batch payload owner_id knowledge_base_id db =
      let expected = projection_of payload owner_id knowledge_base_id in
      let projections = insert_projection expected db.projections in
      stored projections db (
        store_under py payload expected (find_projection payload.projection_id projections)
          db.batches)

  abbrev pub stage_valid :
      Result (Unit {0})
      → DocumentProjectionPayload
      → (owner_id : ℤ) → String
      → Db E S
      → Result Bool × Db E S
  stage_valid (raised e) payload owner_id knowledge_base_id db = (raised e, db)
  stage_valid (ok checked) payload owner_id knowledge_base_id db =
      store_projection_batch payload owner_id knowledge_base_id db

  -- The result is `created` of the receipt.
  unfoldable pub stage_projection_batch :
      DocumentProjectionPayload
      → (owner_id : ℤ) → (knowledge_base_id : Option String) → Db E S
      → Result Bool × Db E S
  unfolding store_projection_batch validate_payload
  stage_projection_batch payload owner_id none db = (raised integrity_error, db)
  stage_projection_batch payload owner_id (some knowledge_base_id) db =
      stage_valid (validate_payload py payload owner_id knowledge_base_id) payload owner_id
        knowledge_base_id db
