-- ===== src/Inbox/Worker.antt =====
-- `_dispatch_inbox_event` of app/mneme/memoria/server/services/event_dispatcher.py. The reading of an
-- envelope from a payload (pydantic) is a parameter, as are the handlers, which act on a world `W`.
use reminder.Prelude.{ℕ, ◌+◌, String, Bool, Option, none, some, List, if◌then◌else◌, take_chars}
use Prim.Native.String.{◌++◌}
use reminder.Inbox.Table.{succeeded, failed, InboxEvent, get_event, set_event, is_pending}

-- How a handler ends: it returns, it raises one of the five errors of an event that is invalid for
-- good, or it raises anything else. Each error comes with its text or its class name.
pub data Handled : Type 0 where
  handled : Handled
  rejected : (text : String) → Handled
  crashed : (type_name : String) → Handled

pub data Report : Type 0 where
  skipped not_found processed refused : Report
  raised : Report

pub record System (Payload W : Type 0) : Type 0 where
  pub inbox : List (InboxEvent Payload)
  pub world : W

module _ {Payload : Type 0} where
  abbrev pub attempted : InboxEvent Payload → InboxEvent Payload
  attempted row = record row { attempt_count = row.attempt_count + 1; last_error = none }

  -- `if row is not None and row.status == "pending"`, and then the assignments.
  abbrev pub when_pending :
      (InboxEvent Payload → InboxEvent Payload) → InboxEvent Payload → InboxEvent Payload
  when_pending f row = if is_pending row.status then f row else row

  -- The assignments of the transaction that follows the handler.
  abbrev pub concluded : (now : ℕ) → Handled → InboxEvent Payload → InboxEvent Payload
  concluded now handled row = record row { status = succeeded; processed_at = some now }
  concluded now (rejected text) row = record row {
    status = failed;
    processed_at = some now;
    last_error = some (take_chars 2000 ("event rejected: " ++ text));
  }
  concluded now (crashed type_name) row = record row {
    last_error = some (type_name ++ ": event processing failed");
  }

abbrev pub report : Handled → Report
report handled = processed
report (rejected text) = refused
report (crashed type_name) = raised

module _ {Payload Event W : Type 0} (validate : Payload → Option Event)
    (handle : Event → W → Handled × W) where
  -- From the handler on.
  abbrev pub run_handler : (now : ℕ) → String → Event → System Payload W → Report × System Payload W
  run_handler now event_id event s =
      let (ending, world) = handle event s.world in
      (
        report ending,
        record {
          inbox = set_event event_id (when_pending (concluded now ending)) s.inbox;
          world = world;
        },
      )

  -- An envelope that does not validate raises inside the first transaction, which is rolled back.
  abbrev pub dispatch_row :
      (now : ℕ)
      → String
      → Option (InboxEvent Payload)
      → System Payload W
      → Report × System Payload W
  dispatch_row now event_id none s = (not_found, s)
  dispatch_row now event_id (some row) s =
      if is_pending row.status
      then elim (validate row.payload) [
        | none ↦ (raised, s)
        | some event ↦
            run_handler now event_id event
              (record s { inbox = set_event event_id attempted s.inbox })
      ]
      else (skipped, s)

  -- `acquired`: pg_try_advisory_lock on the event gave the lock to this worker.
  unfoldable pub dispatch_inbox_event :
      (acquired : Bool) → (now : ℕ) → String → System Payload W → Report × System Payload W
  dispatch_inbox_event acquired now event_id s =
      if acquired then dispatch_row now event_id (get_event event_id s.inbox) s else (skipped, s)
