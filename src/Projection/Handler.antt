-- ===== src/Projection/Handler.antt =====
-- `handle_document_projection_upserted` (app/mneme/memoria/server/services/event_dispatcher.py): the
-- deletion fences, the staging and the finalization of one event. `payload` is none where the payload
-- of the event does not validate; the owner of an event is a number from 0 on.
use reminder.Prelude.{
  ℕ, pos, String, ◌≡◌, refl, Bool, true, Option, none, some, List, [], ◌∷◌, ◌++◌, if◌then◌else◌,
  eq_refl, arith,
}
use reminder.Fences.Source.{
  FenceSource, document, knowledge_base, unseen, Event, IdOrder, IsLinear, order_le, has_source,
  sources_with_knowledge_base,
}
use reminder.Fences.Table.{
  SourceDeletionFence, FenceKey, event_is_blocked_by_deletion, advance_deletion_fences,
}
use reminder.Fences.Upsert.{has_source-fromkeys}
use reminder.Fences.Blocking.{advance_blocks}
use reminder.Projection.Record.{
  DocumentChunkPayload, DocumentProjectionPayload, Db, integrity_error, incomplete_projection,
  Result, ok, raised, Python,
}
use reminder.Projection.Stage.{stage_projection_batch}
use reminder.Projection.Activate.{finalize_projection}

abbrev pub source_of : DocumentProjectionPayload → FenceSource
source_of payload = record { source_type = document; source_id = payload.document_id }

module _ (o : IdOrder) (key_of : FenceKey) (py : Python) {E S : Type 0}
    (embed : (file_name : String) → List DocumentChunkPayload → Option (List E × List (Option S)))
    (meanwhile : Db E S → Db E S) where
  -- `except IncompleteProjectionError: return`
  abbrev pub settled : Result Bool × Db E S → Result (Unit {0}) × Db E S
  settled (ok b, db) = (ok tt, db)
  settled (raised incomplete_projection, db) = (ok tt, db)
  settled (raised e, db) = (raised e, db)

  abbrev pub after_stage :
      (now : ℕ)
      → (projection_id : String) → (reason : String) → Result Bool × Db E S
      → Result (Unit {0}) × Db E S
  after_stage now i reason (raised e, db) = (raised e, db)
  after_stage now i reason (ok created, db) =
      settled (finalize_projection py embed meanwhile now i reason db)

  unfoldable pub handle_document_projection_upserted :
      (now : ℕ)
      → (reason : String) → List SourceDeletionFence
      → Event
      → Option DocumentProjectionPayload
      → Db E S
      → Result (Unit {0}) × Db E S
  unfolding event_is_blocked_by_deletion stage_projection_batch finalize_projection
  handle_document_projection_upserted now reason fences event none db = (raised integrity_error, db)
  handle_document_projection_upserted now reason fences event (some payload) db =
      let staged =
        stage_projection_batch py payload (pos event.owner_id) event.knowledge_base_id db in
      if event_is_blocked_by_deletion o key_of event (source_of payload ∷ []) fences
      then (ok tt, db)
      else after_stage now payload.projection_id reason staged

  document_named :
      (event : Event) (payload : DocumentProjectionPayload)
      → has_source (source_of payload) (sources_with_knowledge_base event (source_of payload ∷ []))
        ≡ true
  unfolding sources_with_knowledge_base
  document_named event payload =
      elim event.knowledge_base_id
        as (λ base.
          has_source (source_of payload) (
            unseen [] (elim base [
              | none ↦ source_of payload ∷ []
              | some i ↦
                  (source_of payload ∷ [])
                  ++ (record { source_type = knowledge_base; source_id = i } ∷ [])
            ]))
          ≡ true) [
            | none ↦
                has_source-fromkeys (source_of payload) (source_of payload ∷ [])
                  (ground (arith, eq_refl payload.document_id))
            | some i ↦
                has_source-fromkeys (source_of payload)
                  (source_of payload ∷ record { source_type = knowledge_base; source_id = i } ∷ [])
                  (ground (arith, eq_refl payload.document_id))
          ]

  -- With a linear order on event ids that the database shares: once the deletion of a document has won,
  -- an upsert of that document, of the same owner and knowledge base and not after the deletion, is
  -- accepted without effect on the projections, their batches and their chunks.
  pub deleted_stays_deleted :
      (linear : IsLinear o) (then_ now : ℕ) (reason : String) (deletion : Event)
      (additional : List FenceSource) (event : Event) (payload : DocumentProjectionPayload)
      (fences : List SourceDeletionFence) (db : Db E S)
      → (advance_deletion_fences o key_of then_ deletion (source_of payload) additional fences).0
        ≡ true
      → event.owner_id ≡ deletion.owner_id
      → event.knowledge_base_id ≡ deletion.knowledge_base_id
      → order_le o event.occurred_at event.event_id deletion.occurred_at deletion.event_id ≡ true
      → handle_document_projection_upserted now reason
          (advance_deletion_fences o key_of then_ deletion (source_of payload) additional fences).1
          event
          (some payload)
          db
        ≡ (ok tt, db)
  unfolding handle_document_projection_upserted
  deleted_stays_deleted linear then_ now reason deletion additional event payload fences db won
        owner base le =
      let blocked =
        advance_blocks o linear key_of then_ deletion (source_of payload) additional event
          (source_of payload) (source_of payload ∷ []) fences won owner base le
          (ground (arith, eq_refl payload.document_id)) (document_named event payload) in
      rw (handle_document_projection_upserted, blocked) refl
