-- ===== src/Inbox/Table.antt =====
-- `InboxEvent` (app/mneme/memoria/server/models/inbox_event.py), `accept_event`
-- (repositories/inbox.py) and the query of `_dispatch_pending_events` (tasks/events.py).
-- `Payload` is the JSON object that the row keeps.
use reminder.Prelude.{
  ℕ, ◌+◌, min, max, String, Bool, true, false, ◌&&◌, Option, none, some, List, [], ◌∷◌, ◌++◌, map,
  leb, find_row, write_row, keep, take, sort_by,
}

pub data Status : Type 0 where
  pending succeeded failed : Status

abbrev pub is_pending : Status → Bool
is_pending pending = true
is_pending _ = false

pub record InboxEvent (Payload : Type 0) : Type 0 where
  pub event_id : String
  pub payload : Payload
  pub received_at : ℕ
  pub status : Status
  pub attempt_count : ℕ
  pub processed_at : Option ℕ
  pub last_error : Option String

module _ {Payload : Type 0} where
  unfoldable pub get_event : String → List (InboxEvent Payload) → Option (InboxEvent Payload)
  unfolding find_row
  get_event = find_row (λ row. row.event_id)

  unfoldable pub set_event :
      String
      → (InboxEvent Payload → InboxEvent Payload)
      → List (InboxEvent Payload)
      → List (InboxEvent Payload)
  unfolding write_row
  set_event = write_row (λ row. row.event_id)

  abbrev pub new_event : (now : ℕ) → String → Payload → InboxEvent Payload
  new_event now event_id payload = record {
    event_id = event_id;
    payload = payload;
    received_at = now;
    status = pending;
    attempt_count = 0;
    processed_at = none;
    last_error = none;
  }

  -- INSERT ... ON CONFLICT (event_id) DO NOTHING, and the row that stands there then.
  unfoldable pub accept_event :
      (now : ℕ)
      → String
      → Payload
      → List (InboxEvent Payload)
      → (InboxEvent Payload × Bool) × List (InboxEvent Payload)
  accept_event now event_id payload rows = elim (get_event event_id rows) [
    | none ↦ ((new_event now event_id payload, true), rows ++ (new_event now event_id payload ∷ []))
    | some row ↦ ((row, false), rows)
  ]

  -- PENDING_EVENT_AGE is 30 seconds, DEFAULT_PENDING_EVENT_BATCH_LIMIT is 100. A row that another
  -- transaction holds is skipped by the database.
  unfoldable pub pending_event_ids :
      (now : ℕ) → (batch_limit : ℕ) → List (InboxEvent Payload) → List String
  unfolding sort_by
  pending_event_ids now batch_limit rows =
      map (λ row. row.event_id)
        (take (min (max batch_limit 1) 100) (
          sort_by (λ row. row.received_at)
            (keep (λ row. is_pending row.status && leb (row.received_at + 30) now) rows)))
