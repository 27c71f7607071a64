-- ===== src/Projection/Record.antt =====
-- The rows of the projections (app/mneme/memoria/server/models/document_projection.py,
-- projection_batch.py, document_chunk.py) and the payload of their events
-- (app/mneme/memoria/server/contracts/events.py). A chunk is stored in a batch as its JSON, which
-- `model_validate` reads back as it was. Generated columns (id, received_at, search_vector) are left
-- out. `E` and `S` are the types of an embedding and of a sparse embedding.
use reminder.Prelude.Failing.{Attempt}
pub use reminder.Prelude.Failing.{ok, raised, ◌>>=◌, ◌>>◌}
use reminder.Prelude.{ℕ, ℤ, String, Bool, true, false, Option, List}

pub data Status : Type 0 where
  staging active failed superseded : Status

abbrev pub is_staging : Status → Bool
is_staging staging = true
is_staging _ = false

abbrev pub is_active_status : Status → Bool
is_active_status active = true
is_active_status _ = false

-- status in {"active", "superseded"}
abbrev pub is_settled : Status → Bool
is_settled active = true
is_settled superseded = true
is_settled _ = false

abbrev pub is_failed : Status → Bool
is_failed failed = true
is_failed _ = false

pub record DocumentChunkPayload : Type 0 where
  pub chunk_id : String
  pub chunk_index : ℤ
  pub content : String
  pub content_hash : String
  pub page_no : Option ℤ
  pub section_path : List String

pub record DocumentProjectionPayload : Type 0 where
  pub projection_id : String
  pub document_id : String
  pub document_version : String
  pub file_name : String
  pub batch_index : ℕ
  pub batch_count : ℕ
  pub aggregate_hash : String
  pub chunks : List DocumentChunkPayload

pub record DocumentProjection : Type 0 where
  pub projection_id : String
  pub owner_id : ℤ
  pub knowledge_base_id : String
  pub document_id : String
  pub document_version : String
  pub file_name : String
  pub batch_count : ℕ
  pub aggregate_hash : String
  pub status : Status
  pub failure_reason : Option String
  pub activated_at : Option ℕ

pub record DocumentProjectionBatch : Type 0 where
  pub projection_id : String
  pub batch_index : ℕ
  pub payload_hash : String
  pub chunks : List DocumentChunkPayload

pub record DocumentChunk (E S : Type 0) : Type 0 where
  pub projection_id : String
  pub owner_id : ℤ
  pub knowledge_base_id : String
  pub document_id : String
  pub document_version : String
  pub chunk_id : String
  pub chunk_index : ℤ
  pub content : String
  pub content_hash : String
  pub page_no : Option ℤ
  pub section_path : List String
  pub embedding : E
  pub sparse_embedding : Option S
  pub is_active : Bool

-- The three tables.
pub record Db (E S : Type 0) : Type 0 where
  pub projections : List DocumentProjection
  pub batches : List DocumentProjectionBatch
  pub chunks : List (DocumentChunk E S)

-- `integrity_error` is ProjectionIntegrityError, `database_error` a violated unique index and
-- `embedding_error` what the embedding service raises.
pub data Failure : Type 0 where
  integrity_error incomplete_projection lookup_error database_error embedding_error : Failure

abbrev pub Result {ℓ} : Type ℓ → Type ℓ
Result A = Attempt Failure A

-- `if not test: raise ProjectionIntegrityError(...)`
abbrev pub require : Bool → Result (Unit {0})
require true = ok tt
require false = raised integrity_error

-- What Python and hashlib give: `sha256(text.encode()).hexdigest()`, `json.dumps` of the chunks,
-- whether `int(value, 16)` accepts a text, `value.lower()`, and a ≤ b on texts.
pub record Python : Type 0 where
  pub sha256 : String → String
  pub dumps : List DocumentChunkPayload → String
  pub is_hex : String → Bool
  pub lower : String → String
  pub leb_text : String → String → Bool
