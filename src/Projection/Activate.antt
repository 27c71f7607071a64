-- ===== src/Projection/Activate.antt =====
-- `_activate_projection`, `_mark_failed` and `finalize_projection`.
use reminder.Prelude.{
  ℕ, String, Bool, true, false, not, ◌&&◌, Option, none, some, List, [], ◌∷◌, ◌++◌, map, length,
  keep, some_of, eqb, eqb_int, ◌==◌, if◌then◌else◌, take_chars,
}
use reminder.Projection.Record.{
  active, failed, superseded, is_staging, is_active_status, is_settled, DocumentChunkPayload,
  DocumentProjection, DocumentChunk, Db, integrity_error, lookup_error, database_error,
  embedding_error, Result, ok, raised, Python,
}
use reminder.Projection.Stage.{find_projection}
use reminder.Projection.Prepare.{PreparedProjection, prepare_projection}

-- An update of the rows of one projection.
abbrev pub update_projection :
    String
    → (DocumentProjection → DocumentProjection)
    → List DocumentProjection
    → List DocumentProjection
update_projection i f = map (λ p. if p.projection_id == i then f p else p)

abbrev pub same_scope : DocumentProjection → DocumentProjection → Bool
same_scope p q =
    eqb_int q.owner_id p.owner_id
    && (q.knowledge_base_id == p.knowledge_base_id)
    && (q.document_id == p.document_id)

-- `scope_filter`: the other active projections of the document
abbrev pub is_old : DocumentProjection → DocumentProjection → Bool
is_old p q = same_scope p q && is_active_status q.status && not (q.projection_id == p.projection_id)

-- What the activation of `p` at `now` makes of each projection.
abbrev pub activated : (now : ℕ) → DocumentProjection → DocumentProjection → DocumentProjection
activated now p q =
    if q.projection_id == p.projection_id
    then record q { status = active; failure_reason = none; activated_at = some now }
    else (if is_old p q then record q { status = superseded } else q)

abbrev pub old_projection_ids : DocumentProjection → List DocumentProjection → List String
old_projection_ids p rows = map (λ q. q.projection_id) (keep (is_old p) rows)

module _ {E S : Type 0} where
  abbrev pub retire_chunk : List String → DocumentChunk E S → DocumentChunk E S
  retire_chunk ids c =
      if some_of (λ i. i == c.projection_id) ids then record c { is_active = false } else c

  abbrev pub show_chunk : String → DocumentChunk E S → DocumentChunk E S
  show_chunk i c = if c.projection_id == i then record c { is_active = true } else c

  abbrev pub new_chunk :
      DocumentProjection → DocumentChunkPayload → E → Option S → DocumentChunk E S
  new_chunk p chunk embedding sparse = record {
    projection_id = p.projection_id;
    owner_id = p.owner_id;
    knowledge_base_id = p.knowledge_base_id;
    document_id = p.document_id;
    document_version = p.document_version;
    chunk_id = chunk.chunk_id;
    chunk_index = chunk.chunk_index;
    content = chunk.content;
    content_hash = chunk.content_hash;
    page_no = chunk.page_no;
    section_path = chunk.section_path;
    embedding = embedding;
    sparse_embedding = sparse;
    is_active = false;
  }

  -- zip of three lists of one length
  unfoldable pub new_chunks :
      DocumentProjection
      → List DocumentChunkPayload
      → List E
      → List (Option S)
      → List (DocumentChunk E S)
  new_chunks p (c ∷ cs) (e ∷ es) (s ∷ ss) = new_chunk p c e s ∷ new_chunks p cs es ss
  new_chunks p _ _ _ = []

  -- Two rows that the unique index on active chunk ids does not allow.
  abbrev pub clash : DocumentChunk E S → DocumentChunk E S → Bool
  clash a b =
      a.is_active
      && b.is_active
      && eqb_int a.owner_id b.owner_id
      && (a.knowledge_base_id == b.knowledge_base_id)
      && (a.chunk_id == b.chunk_id)

  unfoldable pub has_clash : List (DocumentChunk E S) → Bool
  has_clash [] = false
  has_clash (c ∷ cs) = let rest = has_clash cs in if some_of (clash c) cs then true else rest

  -- The rows of the chunks behind the two updates and the insertion between them.
  abbrev pub swapped_chunks :
      DocumentProjection
      → List DocumentProjection
      → List (DocumentChunk E S)
      → List (DocumentChunk E S)
      → List (DocumentChunk E S)
  swapped_chunks p rows added chunks =
      map (show_chunk p.projection_id)
        (map (retire_chunk (old_projection_ids p rows)) chunks ++ added)

  abbrev pub swap :
      (now : ℕ)
      → DocumentProjection
      → List DocumentChunkPayload
      → List E
      → List (Option S)
      → Db E S
      → Result Bool × Db E S
  swap now p prepared embeddings sparse db =
      let chunks =
        swapped_chunks p db.projections (new_chunks p prepared embeddings sparse) db.chunks in
      if has_clash chunks then (raised database_error, db) else (
        ok true,
        record db { projections = map (activated now p) db.projections; chunks = chunks },
      )

module _ (py : Python) {E S : Type 0} where
  abbrev pub activate_rechecked :
      (now : ℕ)
      → DocumentProjection
      → PreparedProjection
      → Result PreparedProjection
      → List E
      → List (Option S)
      → Db E S
      → Result Bool × Db E S
  activate_rechecked now p prepared (raised e) embeddings sparse db = (raised e, db)
  activate_rechecked now p prepared (ok rechecked) embeddings sparse db =
      if not (rechecked.snapshot_hash == prepared.snapshot_hash)
      then (raised integrity_error, db)
      else (if not (eqb (length embeddings) (length rechecked.chunks))
          then (raised integrity_error, db)
          else (if not (eqb (length sparse) (length rechecked.chunks))
              then (raised integrity_error, db)
              else swap now p rechecked.chunks embeddings sparse db))

  abbrev pub activate_row :
      (now : ℕ)
      → PreparedProjection
      → Option DocumentProjection
      → List E
      → List (Option S)
      → Db E S
      → Result Bool × Db E S
  activate_row now prepared none embeddings sparse db = (raised lookup_error, db)
  activate_row now prepared (some p) embeddings sparse db =
      if is_settled p.status
      then (ok false, db)
      else (if not (is_staging p.status)
          then (raised integrity_error, db)
          else activate_rechecked now p prepared (prepare_projection py p db.batches) embeddings
              sparse db)

  -- `_activate_projection` in its transaction, which the database undoes where an exception leaves it.
  unfoldable pub activate_projection :
      (now : ℕ) → PreparedProjection → List E → List (Option S) → Db E S → Result Bool × Db E S
  unfolding new_chunks has_clash find_projection prepare_projection
  activate_projection now prepared embeddings sparse db =
      activate_row now prepared (find_projection prepared.projection_id db.projections) embeddings
        sparse db

abbrev pub fail_staging : (reason : String) → DocumentProjection → DocumentProjection
fail_staging reason p =
    if is_staging p.status
    then record p { status = failed; failure_reason = some (take_chars 2000 reason) }
    else p

module _ {E S : Type 0} where
  unfoldable pub mark_failed : String → (reason : String) → Db E S → Db E S
  unfolding take_chars
  mark_failed i reason db = record db {
    projections = update_projection i (fail_staging reason) db.projections;
  }

  -- `except ProjectionIntegrityError`, around the activation
  abbrev pub marking : String → (reason : String) → Result Bool × Db E S → Result Bool × Db E S
  marking i reason (raised integrity_error, db) = (raised integrity_error, mark_failed i reason db)
  marking i reason (r, db) = (r, db)

  abbrev pub begin_prepared :
      String
      → (reason : String) → (file_name : String) → Result PreparedProjection
      → Db E S
      → Result (Option (String × PreparedProjection)) × Db E S
  begin_prepared i reason file_name (ok prepared) db = (ok (some (file_name, prepared)), db)
  begin_prepared i reason file_name (raised integrity_error) db =
      (raised integrity_error, mark_failed i reason db)
  begin_prepared i reason file_name (raised e) db = (raised e, db)

module _ (py : Python) {E S : Type 0} where
  abbrev pub begin_row :
      String
      → (reason : String) → Option DocumentProjection
      → Db E S
      → Result (Option (String × PreparedProjection)) × Db E S
  begin_row i reason none db = (raised lookup_error, db)
  begin_row i reason (some p) db =
      if is_settled p.status
      then (ok none, db)
      else (if not (is_staging p.status)
          then (raised integrity_error, db)
          else begin_prepared i reason p.file_name (prepare_projection py p db.batches) db)

  -- `finalize_projection` up to the embedding: `none` where it returns False. `reason` is the text of
  -- an exception.
  unfoldable pub begin_finalize :
      String → (reason : String) → Db E S → Result (Option (String × PreparedProjection)) × Db E S
  unfolding find_projection prepare_projection mark_failed
  begin_finalize i reason db = begin_row i reason (find_projection i db.projections) db

  -- The transaction behind the embedding.
  unfoldable pub end_finalize :
      (now : ℕ)
      → String
      → (reason : String) → PreparedProjection
      → List E
      → List (Option S)
      → Db E S
      → Result Bool × Db E S
  unfolding activate_projection mark_failed
  end_finalize now i reason prepared embeddings sparse db =
      marking i reason (activate_projection py now prepared embeddings sparse db)

  -- `embed` is the embedding service on the texts of the chunks, `none` where it raises; `meanwhile`
  -- what other transactions do while it runs.
  abbrev pub with_embeddings :
      (now : ℕ)
      → String
      → (reason : String) → PreparedProjection
      → Option (List E × List (Option S))
      → Db E S
      → Result Bool × Db E S
  with_embeddings now i reason prepared none db = (raised embedding_error, db)
  with_embeddings now i reason prepared (some (embeddings, sparse)) db =
      end_finalize now i reason prepared embeddings sparse db

  abbrev pub finalize_begun :
      (embed : (file_name : String) → List DocumentChunkPayload → Option (List E × List (Option S)))
      → (meanwhile : Db E S → Db E S) → (now : ℕ) → String
      → (reason : String) → Result (Option (String × PreparedProjection)) × Db E S
      → Result Bool × Db E S
  finalize_begun embed meanwhile now i reason (raised e, db) = (raised e, db)
  finalize_begun embed meanwhile now i reason (ok none, db) = (ok false, db)
  finalize_begun embed meanwhile now i reason (ok (some (file_name, prepared)), db) =
      with_embeddings now i reason prepared (embed file_name prepared.chunks) (meanwhile db)

  unfoldable pub finalize_projection :
      (embed : (file_name : String) → List DocumentChunkPayload → Option (List E × List (Option S)))
      → (meanwhile : Db E S → Db E S) → (now : ℕ) → String
      → (reason : String) → Db E S
      → Result Bool × Db E S
  unfolding begin_finalize end_finalize
  finalize_projection embed meanwhile now i reason db =
      finalize_begun embed meanwhile now i reason (begin_finalize i reason db)
