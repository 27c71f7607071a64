-- ===== src/Projection/Samples.antt =====
-- Two versions of a document, of one chunk each, staged and finalized one after the other. All texts
-- have the same digest here, so a version is told by its id.
use reminder.Prelude.{
  if◌then◌else◌, distinct, ℕ, pos, String, ◌≡◌, ◌≢◌, refl, true, false, none, some, List, [], ◌∷◌,
  map, All, Perm, arith, find_row, sort_by, sort_with, take_chars, leb, chars, with_colon, not,
}
use reminder.Fences.Source.{Event, IdOrder, IsLinear, unseen, sources_with_knowledge_base}
use reminder.Fences.Table.{FenceKey, upsert, upsert_all, advance_deletion_fences}
use reminder.Projection.Handler.{
  source_of, handle_document_projection_upserted, deleted_stays_deleted,
}
use reminder.Projection.Record.{
  active, DocumentChunkPayload, DocumentProjectionPayload, DocumentProjection, ok, Python,
}
use reminder.Projection.Stage.{
  validate_payload, find_projection, insert_projection, find_batch, projection_of, snapshot_hash,
  store_projection_batch, stage_projection_batch,
}
use reminder.Projection.Prepare.{
  PreparedProjection, range_from, load_projection_batches, staged_chunks, sort_chunks, check_chunks,
  prepare_projection,
}
use reminder.Projection.Activate.{
  same_scope, new_chunks, has_clash, activate_projection, mark_failed, end_finalize,
}
use reminder.Projection.Replay.{stage_again}
use reminder.Projection.Contents.{IsChecked, prepare_complete}
use reminder.Projection.Versions.{IsPlaced}
use reminder.Projection.Visible.{
  Op, stage, end_final, apply_all, empty, apply_all-IsWellFormed, empty-IsWellFormed,
  one_active_version, chunks-IsPlaced,
}
use reminder.Projection.Refinement.{visible, activate_refines}
use reminder.Projection.Shown.{}

abbrev digest : String
digest = "0123456789abcdef0123456789abcdef0123456789abcdef0123456789abcdef"

abbrev python : Python
python = record {
  sha256 = λ s. digest;
  dumps = λ chunks. "[]";
  is_hex = λ s. true;
  lower = λ s. s;
  leb_text = λ a b. true;
}

abbrev chunk : String → DocumentChunkPayload
chunk name = record {
  chunk_id = name;
  chunk_index = pos 0;
  content = "text";
  content_hash = digest;
  page_no = none;
  section_path = [];
}

abbrev version : String → String → DocumentProjectionPayload
version i name = record {
  projection_id = i;
  document_id = "doc";
  document_version = name;
  file_name = "a.md";
  batch_index = 0;
  batch_count = 1;
  aggregate_hash = digest;
  chunks = chunk name ∷ [];
}

abbrev prepared : String → String → PreparedProjection
prepared i name = record {
  projection_id = i;
  owner_id = pos 7;
  knowledge_base_id = "kb";
  document_id = "doc";
  document_version = name;
  chunks = chunk name ∷ [];
  snapshot_hash = digest;
}

abbrev staged : List (Op ℕ ℕ)
staged =
    stage (version "p1" "v1") (pos 7) (some "kb")
    ∷ (end_final 10 "p1" "" (prepared "p1" "v1") (1 ∷ []) (none ∷ [])
        ∷ (stage (version "p2" "v2") (pos 7) (some "kb") ∷ []))

abbrev finished : Op ℕ ℕ
finished = end_final 20 "p2" "" (prepared "p2" "v2") (2 ∷ []) (none ∷ [])

abbrev both : List (Op ℕ ℕ)
both =
    stage (version "p1" "v1") (pos 7) (some "kb")
    ∷ (end_final 10 "p1" "" (prepared "p1" "v1") (1 ∷ []) (none ∷ [])
        ∷ (stage (version "p2" "v2") (pos 7) (some "kb") ∷ (finished ∷ [])))

abbrev second : DocumentProjection
second = record (projection_of (version "p2" "v2") (pos 7) "kb") {
  status = active;
  activated_at = some 20;
}

found_second : find_projection "p2" (apply_all python both empty).projections ≡ some second
unfolding find_projection find_row stage_projection_batch validate_payload store_projection_batch
    insert_projection find_batch end_finalize activate_projection prepare_projection
    load_projection_batches sort_by sort_chunks sort_with check_chunks distinct new_chunks has_clash
    mark_failed take_chars
found_second = refl

one_active_version_example : ◌≡◌ {A = String} "p2" "p2"
one_active_version_example =
    one_active_version python both "p2" "p2" second second found_second found_second refl refl refl

chunks-IsPlaced_example :
    All (IsPlaced (apply_all python both empty).projections) (apply_all python both empty).chunks
chunks-IsPlaced_example = chunks-IsPlaced python both

shown_result :
    (activate_projection python 20
      (prepared "p2" "v2")
      (2 ∷ [])
      (none ∷ [])
      (apply_all python staged empty)).0
    ≡ ok true
unfolding find_projection find_row stage_projection_batch validate_payload store_projection_batch
    insert_projection find_batch end_finalize activate_projection prepare_projection
    load_projection_batches sort_by sort_chunks sort_with check_chunks distinct new_chunks has_clash
    mark_failed take_chars
shown_result = refl

refused :
    (activate_projection python 20 (prepared "p2" "v2") [] [] (apply_all python staged empty)).0
    ≢ ok true
unfolding find_projection find_row stage_projection_batch validate_payload store_projection_batch
    insert_projection find_batch end_finalize activate_projection prepare_projection
    load_projection_batches sort_by sort_chunks sort_with check_chunks distinct new_chunks has_clash
    mark_failed take_chars
refused e = ground (arith, e)

abbrev staged_row : DocumentProjection
staged_row = projection_of (version "p2" "v2") (pos 7) "kb"

ready :
    prepare_projection python staged_row (apply_all python staged empty).batches
    ≡ ok (prepared "p2" "v2")
unfolding find_projection find_row stage_projection_batch validate_payload store_projection_batch
    insert_projection find_batch end_finalize activate_projection prepare_projection
    load_projection_batches sort_by sort_chunks sort_with check_chunks distinct new_chunks has_clash
    mark_failed take_chars
ready = refl

prepare_complete_example :
    (map (λ b. b.batch_index) (load_projection_batches "p2" (apply_all python staged empty).batches)
      ≡ range_from 0 1)
    × Perm
        (chunk "v2" ∷ [])
        (staged_chunks (load_projection_batches "p2" (apply_all python staged empty).batches))
    × IsChecked python digest (chunk "v2" ∷ [])
    × ◌≡◌ {A = String} "p2" "p2"
    × (digest ≡ snapshot_hash python (chunk "v2" ∷ []))
prepare_complete_example =
    prepare_complete python staged_row (apply_all python staged empty).batches (prepared "p2" "v2")
      ready

stored_once :
    (stage_projection_batch python
      (version "p1" "v1")
      (pos 7)
      (some "kb")
      (empty {E = ℕ} {S = ℕ})).0
    ≡ ok true
unfolding find_projection find_row stage_projection_batch validate_payload store_projection_batch
    insert_projection find_batch
stored_once = refl

stage_again_example :
    stage_projection_batch python
      (version "p1" "v1")
      (pos 7)
      (some "kb")
      (stage_projection_batch python
        (version "p1" "v1")
        (pos 7)
        (some "kb")
        (empty {E = ℕ} {S = ℕ})).1
    ≡ (
      ok false,
      (stage_projection_batch python
          (version "p1" "v1")
          (pos 7)
          (some "kb")
          (empty {E = ℕ} {S = ℕ})).1,
    )
stage_again_example =
    stage_again python (version "p1" "v1") (pos 7) (some "kb") (empty {E = ℕ} {S = ℕ}) true
      stored_once

activate_refines_example :
    (p : DocumentProjection) × (rechecked : PreparedProjection) × (prepare_projection python p
        (apply_all python staged empty).batches
      ≡ ok rechecked)
    × (find_projection "p2" (apply_all python staged empty).projections ≡ some p)
    × ((r : DocumentProjection)
        → visible r
            (activate_projection python 20
              (prepared "p2" "v2")
              (2 ∷ [])
              (none ∷ [])
              (apply_all python staged empty)).1
          ≡ (if same_scope p r
              then rechecked.chunks
              else visible r (apply_all python staged empty)))
activate_refines_example =
    activate_refines python 20 (prepared "p2" "v2") (2 ∷ []) (none ∷ [])
      (apply_all python staged empty)
      (apply_all-IsWellFormed python staged empty (empty-IsWellFormed python)) shown_result

-- The deletion of the document, and a change of it that is not newer.
abbrev marks : IdOrder
marks = record {
  at_most = λ a b. leb (chars a) (chars b);
  sql_above = λ a b. not (leb (chars a) (chars b));
}

marks-IsLinear : IsLinear marks
marks-IsLinear = record {
  transitive = λ a b c h g. ground (arith, h, g);
  reflexive = λ a. ground arith;
  agrees = λ a b. refl;
  total = λ a b h. ground (arith, h);
}

abbrev plain_key : FenceKey
plain_key owner_id none source = with_colon "none" source.source_id
plain_key owner_id (some base) source = with_colon base source.source_id

abbrev deletion : Event
deletion = record { event_id = "||"; owner_id = 7; knowledge_base_id = some "kb"; occurred_at = 20 }

abbrev late_event : Event
late_event = record deletion { event_id = "|" }

deleted_stays_deleted_example :
    handle_document_projection_upserted marks plain_key python
      (λ name chunks. some (3 ∷ [], none ∷ []))
      (λ db. db)
      22
      ""
      (advance_deletion_fences marks plain_key 21 deletion (source_of (version "p2" "v2")) [] []).1
      late_event
      (some (version "p2" "v2"))
      (apply_all python staged empty)
    ≡ (ok tt, apply_all python staged empty)
unfolding advance_deletion_fences unseen upsert upsert_all find_row sources_with_knowledge_base
deleted_stays_deleted_example =
    deleted_stays_deleted marks plain_key python (λ name chunks. some (3 ∷ [], none ∷ []))
      (λ db. db) marks-IsLinear 21 22 "" deletion [] late_event (version "p2" "v2") []
      (apply_all python staged empty) refl refl refl refl
