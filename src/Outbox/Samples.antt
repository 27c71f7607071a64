-- ===== src/Outbox/Samples.antt =====
-- A small outbox, runs of the model on it, and the theorems at it.
use reminder.Prelude.{
  ℕ, zero, suc, ap, subst, String, ◌≡◌, refl, inl, true, none, some, List, [], ◌∷◌, arith,
}
use mathlib.Core.Option
use reminder.Outbox.Event.{Status, pending, running, succeeded, OutboxEvent, Settings, Failure}
use reminder.Outbox.Table.{
  get_outbox_event_by_id, update_outbox_event_status, Request, enqueue_outbox_event,
}
use reminder.Outbox.Worker.{
  applied, threw, conclude, Handler, System, delivered, mark_outbox_running, mark_outbox_succeeded,
  mark_outbox_failed, process_outbox_event_by_id,
}
use reminder.Outbox.Delivery.{advance, process-row}
use reminder.Outbox.Invariant.{IsSound, AllSound, enqueue-AllSound}
use reminder.Outbox.Retries.{deliveries, Closed, deliveries_close}
use reminder.Outbox.Overlap.{
  Action, load, mark, finish, stop, enqueue, load_step, mark_step, finish_step, step, run,
}
use reminder.Outbox.Schedules.{alone, run-AllSound}
use reminder.Outbox.Late.{late_mark, late_mark_reopens}
use reminder.Outbox.Enqueue.{enqueue_again}
use reminder.Outbox.Crash.{crash_stays_running}

abbrev sample_settings : Settings
sample_settings = record {
  event_max_attempts = 5;
  retry_base_delay_seconds = 30;
  memory_agent_outbox_target = "memory_agent_http";
}

abbrev refused : Failure
refused = record {
  is_memory_agent_retryable = true;
  business_message = some "unavailable";
  text = "503";
}

-- What the handler enqueues.
abbrev follow_up : Request ℕ
follow_up = record {
  event_type = "user.memory_requested";
  aggregate_type = "subscriber_action";
  aggregate_id = "a1";
  target_backend = "memory_agent_http";
  payload = 8;
  operation_id = "op2";
}

-- The handler fails while the world, a number of failures to come, is above zero.
flaky : Handler ℕ ℕ
flaky event zero = (applied, ("e2", follow_up) ∷ [], 0)
flaky event (suc n) = (threw refused, [], n)

abbrev sample_request : Request ℕ
sample_request = record {
  event_type = "document.deleted";
  aggregate_type = "document";
  aggregate_id = "d1";
  target_backend = "memory_agent_http";
  payload = 7;
  operation_id = "op1";
}

abbrev stored : OutboxEvent ℕ
stored = record {
  id = "e1";
  event_type = "document.deleted";
  aggregate_type = "document";
  aggregate_id = "d1";
  target_backend = "memory_agent_http";
  payload = 7;
  idempotency_key = "document.deleted:document:d1:op1";
  status = pending;
  attempt_count = 0;
  max_attempts = 5;
  created_at = 10;
  next_attempt_at = none;
  locked_at = none;
  processed_at = none;
  last_error = none;
}

abbrev system : ℕ → System ℕ ℕ
system failures = record { outbox = stored ∷ []; world = failures }

enqueue_stored :
    enqueue_outbox_event sample_settings "e1" 10 sample_request [] ≡ (stored, stored ∷ [])
unfolding enqueue_outbox_event
enqueue_stored = refl

delivered_at_once :
    (process_outbox_event_by_id sample_settings flaky 20 "e1" (system 0)).0 ≡ delivered
unfolding process_outbox_event_by_id flaky conclude
delivered_at_once = refl

-- Two failures, then a success: three attempts, and the third settles the row.
third_time :
    Option.map {B = Status × ℕ}
      (λ (event : OutboxEvent ℕ). (event.status, event.attempt_count))
      (get_outbox_event_by_id "e1"
        (deliveries sample_settings flaky (20 ∷ 60 ∷ 130 ∷ []) "e1" (system 2)).outbox)
    ≡ some (succeeded, 3)
unfolding process_outbox_event_by_id flaky conclude get_outbox_event_by_id mark_outbox_running
    mark_outbox_succeeded mark_outbox_failed update_outbox_event_status
third_time = refl

none_found : (j : String) {e : OutboxEvent ℕ} → get_outbox_event_by_id j [] ≡ some e → ⊥
unfolding get_outbox_event_by_id
none_found j h = cc

get_stored : get_outbox_event_by_id "e1" (stored ∷ []) ≡ some stored
unfolding get_outbox_event_by_id
get_stored = refl

stored-IsSound : IsSound stored
stored-IsSound = ground arith

stored-AllSound : AllSound (stored ∷ [])
stored-AllSound =
    subst AllSound (ap (λ (r : OutboxEvent ℕ × List (OutboxEvent ℕ)). r.1) enqueue_stored) (
      enqueue-AllSound sample_settings "e1" 10 sample_request [] (omega arith)
        (λ j e h. nothing j e h))
  where
    nothing : (j : String) (e : OutboxEvent ℕ) → get_outbox_event_by_id j [] ≡ some e → IsSound e
    nothing j e h = absurd (none_found j h)

process-row_example :
    get_outbox_event_by_id "e1"
      (process_outbox_event_by_id sample_settings flaky 20 "e1" (system 1)).1.outbox
    ≡ some (advance sample_settings flaky 20 1 stored)
process-row_example = process-row sample_settings flaky 20 "e1" (system 1) "e1" stored get_stored

-- Two workers take the event up at once: the first delivers it, and the mark of the second, which
-- then stops, opens it again.
abbrev overlapping : List (Action ℕ)
overlapping =
    load 0 "e1"
    ∷ load 1 "e1"
    ∷ mark 0 20
    ∷ enqueue "e2" 21 follow_up
    ∷ finish 0 22 applied
    ∷ mark 1 23
    ∷ stop 1
    ∷ []

opened_again :
    Option.map {B = Status}
      (λ (event : OutboxEvent ℕ). event.status)
      (get_outbox_event_by_id "e1" (run sample_settings overlapping (alone (stored ∷ []))).outbox)
    ≡ some running
unfolding run conclude get_outbox_event_by_id mark_outbox_running mark_outbox_succeeded
    update_outbox_event_status enqueue_outbox_event load_step mark_step finish_step step
opened_again = refl

run-AllSound_example : AllSound (run sample_settings overlapping (alone (stored ∷ []))).outbox
run-AllSound_example =
    run-AllSound sample_settings overlapping (stored ∷ []) (omega arith) stored-AllSound

deliveries_close_example :
    (final : OutboxEvent ℕ) × (get_outbox_event_by_id "e1"
        (deliveries sample_settings flaky (1 ∷ 2 ∷ 3 ∷ 4 ∷ 5 ∷ []) "e1" (system 9)).outbox
      ≡ some final)
    × Closed final.status
deliveries_close_example =
    deliveries_close sample_settings flaky (1 ∷ 2 ∷ 3 ∷ 4 ∷ 5 ∷ []) "e1" (system 9) stored
      get_stored stored-IsSound (inl refl) (omega arith)

enqueue_again_example :
    enqueue_outbox_event sample_settings "e2" 99
      (record sample_request { payload = 8 })
      (enqueue_outbox_event sample_settings "e1" 10 sample_request []).1
    ≡ enqueue_outbox_event sample_settings "e1" 10 sample_request []
enqueue_again_example =
    enqueue_again sample_settings "e1" "e2" 10 99 sample_request
      (record sample_request { payload = 8 }) [] refl

late_mark_reopens_example :
    get_outbox_event_by_id "e1"
      (run sample_settings (late_mark sample_settings 20 22 23 stored) (alone (stored ∷ []))).outbox
    ≡ some (record stored {
      status = running;
      attempt_count = 1;
      locked_at = some 23;
      processed_at = some 22;
    })
late_mark_reopens_example =
    late_mark_reopens sample_settings 20 22 23 stored (stored ∷ []) get_stored refl

crash_stays_running_example :
    get_outbox_event_by_id "e1"
      (deliveries sample_settings flaky
        (50 ∷ 60 ∷ [])
        "e1"
        (record (system 1) { outbox = mark_outbox_running 20 stored (stored ∷ []) })).outbox
    ≡ some (record stored { status = running; attempt_count = 1; locked_at = some 20 })
crash_stays_running_example =
    crash_stays_running sample_settings flaky 20 (50 ∷ 60 ∷ []) (system 1) stored get_stored
