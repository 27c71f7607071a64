-- ===== src/Fences/Table.antt =====
-- `SourceDeletionFence` (app/mneme/memoria/server/models/source_deletion_fence.py), and the check and
-- the advance of the fences. `key_of` stands for the digest of `_fence_key` (json and hashlib).
use reminder.Prelude.{
  ℕ, String, true, false, Bool, Option, none, some, List, [], ◌∷◌, map, ltb, eqb, ◌==◌,
  if◌then◌else◌, some_of, keep, find_row,
}
use reminder.Fences.Source.{
  FenceSource, FenceSourceType, Event, IdOrder, order_le, unseen, sources_with_knowledge_base,
}

pub record SourceDeletionFence : Type 0 where
  pub fence_key : String
  pub owner_id : ℕ
  pub knowledge_base_id : Option String
  pub source_type : FenceSourceType
  pub source_id : String
  pub deleted_at : ℕ
  pub delete_event_id : String
  pub updated_at : ℕ

abbrev pub FenceKey : Type 0
FenceKey = (owner_id : ℕ) → (knowledge_base_id : Option String) → FenceSource → String

module _ (o : IdOrder) where
  -- The statement's WHERE: `later` is the excluded row.
  abbrev pub is_later : SourceDeletionFence → SourceDeletionFence → Bool
  is_later later row =
      if ltb row.deleted_at later.deleted_at
      then true
      else (if eqb later.deleted_at row.deleted_at
          then o.sql_above later.delete_event_id row.delete_event_id
          else false)

  -- INSERT ... ON CONFLICT (fence_key) DO UPDATE ... WHERE, for one value.
  unfoldable pub upsert :
      (now : ℕ) → SourceDeletionFence → List SourceDeletionFence → List SourceDeletionFence
  upsert now value [] = value ∷ []
  upsert now value (row ∷ rows) =
      let rest = upsert now value rows in
      if row.fence_key == value.fence_key
      then (if is_later value row
          then record row {
            deleted_at = value.deleted_at;
            delete_event_id = value.delete_event_id;
            updated_at = now;
          }
          else row)
        ∷ rows
      else row ∷ rest

  -- The values of all statements, of 1,000 values each, one after the other.
  unfoldable pub upsert_all :
      (now : ℕ) → List SourceDeletionFence → List SourceDeletionFence → List SourceDeletionFence
  unfolding upsert
  upsert_all now [] rows = rows
  upsert_all now (value ∷ values) rows = upsert_all now values (upsert now value rows)

module _ (o : IdOrder) (key_of : FenceKey) where
  abbrev pub event_key : Event → FenceSource → String
  event_key event source = key_of event.owner_id event.knowledge_base_id source

  abbrev pub fence_value : (now : ℕ) → Event → FenceSource → SourceDeletionFence
  fence_value now event source = record {
    fence_key = event_key event source;
    owner_id = event.owner_id;
    knowledge_base_id = event.knowledge_base_id;
    source_type = source.source_type;
    source_id = source.source_id;
    deleted_at = event.occurred_at;
    delete_event_id = event.event_id;
    updated_at = now;
  }

  -- The fences are read by their keys, in batches of 1,000 keys.
  unfoldable pub event_is_blocked_by_deletion :
      Event → List FenceSource → List SourceDeletionFence → Bool
  unfolding sources_with_knowledge_base
  event_is_blocked_by_deletion event sources rows =
      let keys = map (event_key event) (sources_with_knowledge_base event sources) in
      some_of
        (λ fence.
          order_le o event.occurred_at event.event_id fence.deleted_at fence.delete_event_id)
        (keep (λ fence. some_of (λ key. key == fence.fence_key) keys) rows)

  -- The lock on the primary fence makes the two statements one step.
  unfoldable pub advance_deletion_fences :
      (now : ℕ)
      → Event
      → FenceSource
      → (additional : List FenceSource) → List SourceDeletionFence
      → Bool × List SourceDeletionFence
  unfolding find_row unseen upsert_all
  advance_deletion_fences now event primary additional rows =
      let values = map (fence_value now event) (unseen [] (primary ∷ additional)) in
      if elim (find_row (λ row. row.fence_key) (event_key event primary) rows) [
        | none ↦ false
        | some current ↦
            order_le o event.occurred_at event.event_id current.deleted_at current.delete_event_id
      ]
      then (false, rows)
      else (true, upsert_all o now values rows)
