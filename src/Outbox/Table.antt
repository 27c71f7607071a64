-- ===== src/Outbox/Table.antt =====
-- crud/outbox_event.py and the enqueueing half of domains/tasks/outbox.py: each function is one
-- statement or flush of a session, over the rows of `outbox_events` in the order of insertion.
use reminder.Prelude.{
  ℕ, String, Bool, true, false, ◌&&◌, Option, none, some, List, [], ◌∷◌, ◌++◌, leb, ◌==◌,
  if◌then◌else◌, find_row, write_row, take, keep, sort_by,
}
use reminder.Outbox.Event.{
  Status, pending, running, failed, OutboxEvent, Settings, build_outbox_idempotency_key,
}

module _ {P : Type 0} where
  unfoldable pub get_outbox_event_by_id : String → List (OutboxEvent P) → Option (OutboxEvent P)
  unfolding find_row
  get_outbox_event_by_id = find_row (λ event. event.id)

  unfoldable pub get_outbox_event_by_idempotency_key :
      String → List (OutboxEvent P) → Option (OutboxEvent P)
  unfolding find_row
  get_outbox_event_by_idempotency_key = find_row (λ event. event.idempotency_key)

-- The arguments of `update_outbox_event_status` behind the id.
pub record StatusUpdate : Type 0 where
  pub status : Status
  pub attempt_count : Option ℕ
  pub next_attempt_at : Option ℕ
  pub locked_at : Option ℕ
  pub processed_at : Option ℕ
  pub last_error : Option String
  pub clear_error : Bool

abbrev pub or_keep {ℓ} : {A : Type ℓ} → Option A → A → A
or_keep none old = old
or_keep (some new) old = new

abbrev or_keep? {ℓ} : {A : Type ℓ} → Option A → Option A → Option A
or_keep? none old = old
or_keep? (some new) old = some new

-- `if value is not None or status in {...}`: the tests write `value`, None included.
clears_next_attempt : Status → Bool
clears_next_attempt failed = false
clears_next_attempt _ = true

clears_lock : Status → Bool
clears_lock running = false
clears_lock _ = true

module _ {P : Type 0} where
  -- The assignments of `update_outbox_event_status` on the loaded row.
  unfoldable pub assign_status : StatusUpdate → OutboxEvent P → OutboxEvent P
  unfolding clears_next_attempt clears_lock
  assign_status u event = record event {
    status = u.status;
    attempt_count = or_keep u.attempt_count event.attempt_count;
    next_attempt_at =
        if clears_next_attempt u.status
        then u.next_attempt_at
        else or_keep? u.next_attempt_at event.next_attempt_at;
    locked_at = if clears_lock u.status then u.locked_at else or_keep? u.locked_at event.locked_at;
    processed_at = or_keep? u.processed_at event.processed_at;
    last_error = if u.clear_error then none else or_keep? u.last_error event.last_error;
  }

  unfoldable pub update_outbox_event_status :
      String → StatusUpdate → List (OutboxEvent P) → List (OutboxEvent P)
  unfolding write_row assign_status
  update_outbox_event_status event_id u = write_row (λ event. event.id) event_id (assign_status u)

-- What `enqueue_outbox_event` is given.
pub record Request (P : Type 0) : Type 0 where
  pub event_type : String
  pub aggregate_type : String
  pub aggregate_id : String
  pub target_backend : String
  pub payload : P
  pub operation_id : String

module _ {P : Type 0} where
  abbrev pub request_key : Request P → String
  request_key r =
      build_outbox_idempotency_key r.event_type r.aggregate_type r.aggregate_id r.operation_id

  -- The inserted row: what `values` leaves out takes its column's default.
  unfoldable pub new_row : Settings → (new_id : String) → (now : ℕ) → Request P → OutboxEvent P
  unfolding build_outbox_idempotency_key
  new_row settings new_id now r = record {
    id = new_id;
    event_type = r.event_type;
    aggregate_type = r.aggregate_type;
    aggregate_id = r.aggregate_id;
    target_backend = r.target_backend;
    payload = r.payload;
    idempotency_key = request_key r;
    status = pending;
    attempt_count = 0;
    max_attempts = settings.event_max_attempts;
    created_at = now;
    next_attempt_at = none;
    locked_at = none;
    processed_at = none;
    last_error = none;
  }

  -- INSERT ... ON CONFLICT (idempotency_key) DO NOTHING RETURNING, then the SELECT of the row that
  -- was in the way. The RuntimeError of a conflict with no row does not arise in one transaction.
  unfoldable pub enqueue_outbox_event :
      Settings
      → (new_id : String) → (now : ℕ) → Request P
      → List (OutboxEvent P)
      → OutboxEvent P × List (OutboxEvent P)
  unfolding get_outbox_event_by_idempotency_key new_row
  enqueue_outbox_event settings new_id now r outbox =
      elim (get_outbox_event_by_idempotency_key (request_key r) outbox) [
        | some existing ↦ (existing, outbox)
        | none ↦ (new_row settings new_id now r, outbox ++ (new_row settings new_id now r ∷ []))
      ]

  -- The WHERE clause of `list_dispatchable_outbox_events`.
  unfoldable pub is_dispatchable :
      (now : Option ℕ) → (target_backend : Option String) → OutboxEvent P → Bool
  is_dispatchable now target event =
      elim event.status [ pending ↦ true | failed ↦ true | _ ↦ false ]
      && elim now [
        | none ↦ true
        | some t ↦ elim event.next_attempt_at [ none ↦ true | some due ↦ leb due t ]
      ]
      && elim target [
        | none ↦ true
        | some backend ↦ if backend == "" then true else event.target_backend == backend
      ]

  unfoldable pub list_dispatchable_outbox_events :
      (limit : ℕ)
      → (target_backend : Option String) → (now : Option ℕ) → List (OutboxEvent P)
      → List (OutboxEvent P)
  unfolding is_dispatchable sort_by
  list_dispatchable_outbox_events limit target now outbox =
      take limit (sort_by (λ event. event.created_at) (keep (is_dispatchable now target) outbox))
