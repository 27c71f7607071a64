-- ===== src/Projection/Prepare.antt =====
-- `_prepare_projection`: the checks on a complete projection, and its chunks in order.
use reminder.Prelude.{
  ℕ, zero, suc, ℤ, pos, String, Bool, true, false, not, ◌&&◌, ◌||◌, List, [], ◌∷◌, ◌++◌, map,
  length, keep, leb_int, eqb, eqb_int, ◌==◌, if◌then◌else◌, distinct, sort_by, sort_with,
}
use Prim.Native.String
use reminder.Projection.Record.{
  DocumentChunkPayload, DocumentProjection, DocumentProjectionBatch, incomplete_projection, Result,
  ok, raised, ◌>>◌, require, Python,
}
use reminder.Projection.Stage.{validate_sha256, snapshot_hash}

pub record PreparedProjection : Type 0 where
  pub projection_id : String
  pub owner_id : ℤ
  pub knowledge_base_id : String
  pub document_id : String
  pub document_version : String
  pub chunks : List DocumentChunkPayload
  pub snapshot_hash : String

-- list(range(n)), from `start`
abbrev pub range_from : (start n : ℕ) → List ℕ
range_from start zero = []
range_from start (suc n) = start ∷ range_from (suc start) n

abbrev pub same_numbers : List ℕ → List ℕ → Bool
same_numbers [] [] = true
same_numbers (x ∷ xs) (y ∷ ys) = eqb x y && same_numbers xs ys
same_numbers _ _ = false

abbrev pub same_integers : List ℤ → List ℤ → Bool
same_integers [] [] = true
same_integers (x ∷ xs) (y ∷ ys) = eqb_int x y && same_integers xs ys
same_integers _ _ = false

abbrev pub concat : List (List DocumentChunkPayload) → List DocumentChunkPayload
concat [] = []
concat (xs ∷ xss) = xs ++ concat xss

-- "".join(texts)
abbrev pub join : List String → String
join [] = ""
join (s ∷ ss) = String.◌++◌ s (join ss)

-- `load_projection_batches`: the batches of one projection, by their index
unfoldable pub load_projection_batches :
    String → List DocumentProjectionBatch → List DocumentProjectionBatch
unfolding sort_by
load_projection_batches projection_id rows =
    sort_by (λ b. b.batch_index) (keep (λ b. b.projection_id == projection_id) rows)

abbrev pub staged_chunks : List DocumentProjectionBatch → List DocumentChunkPayload
staged_chunks batches = concat (map (λ b. b.chunks) batches)

module _ (py : Python) where
  -- (chunk_index, chunk_id) ≤ (chunk_index, chunk_id)
  abbrev pub leb_chunk : DocumentChunkPayload → DocumentChunkPayload → Bool
  leb_chunk a b =
      (leb_int a.chunk_index b.chunk_index && not (eqb_int a.chunk_index b.chunk_index))
      || (eqb_int a.chunk_index b.chunk_index && py.leb_text a.chunk_id b.chunk_id)

  unfoldable pub sort_chunks : List DocumentChunkPayload → List DocumentChunkPayload
  unfolding sort_with
  sort_chunks = sort_with leb_chunk

  abbrev pub check_contents : List DocumentChunkPayload → Result (Unit {0})
  check_contents [] = ok tt
  check_contents (chunk ∷ chunks) = do
    validate_sha256 py chunk.content_hash
    require (py.sha256 chunk.content == chunk.content_hash)
    check_contents chunks

  -- The checks on the chunks in their order.
  unfoldable pub check_chunks :
      (aggregate_hash : String) → List DocumentChunkPayload → Result (Unit {0})
  unfolding distinct
  check_chunks aggregate_hash chunks = do
    require
        (same_integers (map (λ c. c.chunk_index) chunks) (map pos (range_from 0 (length chunks))))
    require (
        eqb (length (map (λ c. c.chunk_id) chunks))
          (length (distinct [] (map (λ c. c.chunk_id) chunks))))
    check_contents chunks
    validate_sha256 py aggregate_hash
    require (py.sha256 (join (map (λ c. c.content_hash) chunks)) == aggregate_hash)

  abbrev pub prepared_of :
      DocumentProjection → List DocumentChunkPayload → Result (Unit {0}) → Result PreparedProjection
  prepared_of projection chunks (raised e) = raised e
  prepared_of projection chunks (ok checked) = ok (record {
    projection_id = projection.projection_id;
    owner_id = projection.owner_id;
    knowledge_base_id = projection.knowledge_base_id;
    document_id = projection.document_id;
    document_version = projection.document_version;
    chunks = chunks;
    snapshot_hash = snapshot_hash py chunks;
  })

  -- The batch indexes are compared before the chunks are looked at.
  unfoldable pub prepare_projection :
      DocumentProjection → List DocumentProjectionBatch → Result PreparedProjection
  unfolding load_projection_batches sort_chunks check_chunks
  prepare_projection projection rows =
      let batches = load_projection_batches projection.projection_id rows in
      let chunks = sort_chunks (staged_chunks batches) in
      if same_numbers (map (λ b. b.batch_index) batches) (range_from 0 projection.batch_count)
      then prepared_of projection chunks (check_chunks projection.aggregate_hash chunks)
      else raised incomplete_projection
