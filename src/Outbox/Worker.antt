-- ===== src/Outbox/Worker.antt =====
-- Delivery: the `mark_*` functions, `apply_outbox_event`, `process_outbox_event_by_id` and
-- `dispatch_pending_outbox_events` of domains/tasks/outbox.py, as one worker runs them alone. The
-- handlers act on a world `W` that the module does not own, and enqueue events of their own, as
-- apply_runtime_subscriber_action of app/mneme/memoria/automation/service.py does. Every session
-- reads the time `now` that the caller gives. Outbox/Overlap.antt has the workers side by side.
use reminder.Prelude.{
  ℕ, ◌+◌, String, true, false, ◌&&◌, not, Option, none, some, List, [], ◌∷◌, map, ◌==◌,
  if◌then◌else◌, length,
}
use reminder.Outbox.Event.{
  Status, pending, running, succeeded, failed, dead_letter, OutboxEvent, Settings, Failure,
  calculate_next_attempt_at, should_dead_letter, bounded_error_detail,
}
use reminder.Outbox.Table.{
  get_outbox_event_by_id, StatusUpdate, update_outbox_event_status, Request, enqueue_outbox_event,
  list_dispatchable_outbox_events,
}

abbrev unchanged : Status → StatusUpdate
unchanged status = record {
  status = status;
  attempt_count = none;
  next_attempt_at = none;
  locked_at = none;
  processed_at = none;
  last_error = none;
  clear_error = false;
}

module _ {P : Type 0} where
  unfoldable pub mark_outbox_running :
      (now : ℕ) → OutboxEvent P → List (OutboxEvent P) → List (OutboxEvent P)
  mark_outbox_running now event = update_outbox_event_status event.id (record (unchanged running) {
    attempt_count = some (event.attempt_count + 1);
    locked_at = some now;
    clear_error = true;
  })

  unfoldable pub mark_outbox_succeeded :
      (now : ℕ) → String → List (OutboxEvent P) → List (OutboxEvent P)
  mark_outbox_succeeded now event_id =
      update_outbox_event_status event_id
        (record (unchanged succeeded) { processed_at = some now; clear_error = true })

  -- The `status` that `mark_outbox_failed` chooses.
  unfoldable pub failure_status : Settings → OutboxEvent P → Failure → Status
  unfolding should_dead_letter
  failure_status settings event exc =
      let attempts_exhausted = should_dead_letter (event.attempt_count + 1) event.max_attempts in
      if event.target_backend == settings.memory_agent_outbox_target
      then (if exc.is_memory_agent_retryable && not attempts_exhausted then failed else dead_letter)
      else (if attempts_exhausted then dead_letter else failed)

  unfoldable pub mark_outbox_failed :
      Settings → (now : ℕ) → OutboxEvent P → Failure → List (OutboxEvent P) → List (OutboxEvent P)
  unfolding failure_status bounded_error_detail calculate_next_attempt_at
  mark_outbox_failed settings now event exc =
      let status = failure_status settings event exc in
      update_outbox_event_status event.id (record (unchanged status) {
        attempt_count = some (event.attempt_count + 1);
        next_attempt_at = elim status [
          | dead_letter ↦ none
          | _ ↦ some (calculate_next_attempt_at settings now (event.attempt_count + 1))
        ];
        last_error = some (bounded_error_detail settings event exc);
      })

-- A handler's return value or exception; the report of the callers does not look into the value.
pub data Applied : Type 0 where
  applied : Applied
  threw : Failure → Applied

-- What a handler committed to the outbox: each request with the id that was drawn for its row.
abbrev pub Enqueued : Type 0 → Type 0
Enqueued P = List (String × Request P)

-- A handler ends, with the events it has enqueued and the world behind it.
abbrev pub Handler : Type 0 → Type 0 → Type 0
Handler P W = OutboxEvent P → W → Applied × Enqueued P × W

pub record Handlers (P W : Type 0) : Type 0 where
  pub apply_in_app_notification_event : Handler P W
  pub apply_internal_hook_event : Handler P W
  pub apply_memory_agent_http_event : Handler P W
  pub apply_vector_reindex_event : Handler P W
  pub apply_graph_sync_event : Handler P W
  pub apply_graph_projection_upsert : Handler P W

abbrev unsupported : Failure
unsupported = record {
  is_memory_agent_retryable = false;
  business_message = some "unsupported outbox event type";
  text = "unsupported outbox event type";
}

module _ {P W : Type 0} where
  unfoldable pub apply_outbox_event : Settings → Handlers P W → Handler P W
  apply_outbox_event settings h event =
      if event.target_backend == "in_app"
      then h.apply_in_app_notification_event event
      else if event.target_backend == "internal_hook"
      then h.apply_internal_hook_event event
      else if event.target_backend == settings.memory_agent_outbox_target
      then h.apply_memory_agent_http_event event
      else if event.event_type == "document.vector.reindex"
      then h.apply_vector_reindex_event event
      else if event.event_type == "document.graph.sync"
      then h.apply_graph_sync_event event
      else if event.event_type == "graph.projection.upsert"
      then h.apply_graph_projection_upsert event
      else λ world. (threw unsupported, [], world)

-- What `process_outbox_event_by_id` returns or raises.
pub data Report : Type 0 where
  missing : Report
  skipped : Status → Report
  delivered : Report
  reraised : Failure → Report

pub record System (P W : Type 0) : Type 0 where
  pub outbox : List (OutboxEvent P)
  pub world : W

module _ {P : Type 0} (settings : Settings) where
  unfoldable pub enqueue_all : (now : ℕ) → Enqueued P → List (OutboxEvent P) → List (OutboxEvent P)
  unfolding enqueue_outbox_event
  enqueue_all now [] outbox = outbox
  enqueue_all now ((new_id, request) ∷ rest) outbox =
      enqueue_all now rest (enqueue_outbox_event settings new_id now request outbox).1

module _ {P W : Type 0} (settings : Settings) where
  -- Behind the handler: the transaction that records how it ended.
  unfoldable pub conclude :
      (now : ℕ) → OutboxEvent P → Applied → W → List (OutboxEvent P) → Report × System P W
  conclude now event applied world outbox =
      (delivered, record { outbox = mark_outbox_succeeded now event.id outbox; world = world })
  conclude now event (threw exc) world outbox = (
    reraised exc,
    record { outbox = mark_outbox_failed settings now event exc outbox; world = world },
  )

module _ {P W : Type 0} (settings : Settings) (handle : Handler P W) where
  unfoldable pub attempt : (now : ℕ) → OutboxEvent P → System P W → Report × System P W
  unfolding enqueue_all
  attempt now event s =
      let (ended, enqueued, world) = handle event s.world in
      conclude settings now event ended world
        (enqueue_all settings now enqueued (mark_outbox_running now event s.outbox))

  unfoldable pub process_snapshot :
      (now : ℕ) → Option (OutboxEvent P) → System P W → Report × System P W
  unfolding attempt
  process_snapshot now none s = (missing, s)
  process_snapshot now (some event) s = elim event.status [
    | pending ↦ attempt now event s
    | failed ↦ attempt now event s
    | status ↦ (skipped status, s)
  ]

  unfoldable pub process_outbox_event_by_id : (now : ℕ) → String → System P W → Report × System P W
  unfolding process_snapshot get_outbox_event_by_id
  process_outbox_event_by_id now event_id s =
      process_snapshot now (get_outbox_event_by_id event_id s.outbox) s

  abbrev pub count_report : Report → ℕ × ℕ → ℕ × ℕ
  count_report missing (d, f) = (d, f + 1)
  count_report (reraised exc) (d, f) = (d, f + 1)
  count_report (skipped status) (d, f) = (d + 1, f)
  count_report delivered (d, f) = (d + 1, f)

  -- The loop of `dispatch_pending_outbox_events`: (dispatched, failed) and the system behind it.
  unfoldable pub dispatch_ids : (now : ℕ) → List String → System P W → (ℕ × ℕ) × System P W
  unfolding process_outbox_event_by_id
  dispatch_ids now [] s = ((0, 0), s)
  dispatch_ids now (event_id ∷ rest) s =
      let (report, s') = process_outbox_event_by_id now event_id s in
      let (counts, s'') = dispatch_ids now rest s' in (count_report report counts, s'')

  unfoldable pub dispatch_pending_outbox_events :
      (now limit : ℕ) → (target_backend : Option String) → System P W → (ℕ × ℕ × ℕ) × System P W
  unfolding list_dispatchable_outbox_events dispatch_ids
  dispatch_pending_outbox_events now limit target s =
      let events = list_dispatchable_outbox_events limit target (some now) s.outbox in
      let (counts, s') = dispatch_ids now (map (λ event. event.id) events) s in
      ((length events, counts.0, counts.1), s')
