-- ===== src/Outbox/Overlap.antt =====
-- Deliveries side by side. `process_outbox_event_by_id` of app/mneme/domains/tasks/outbox.py reads a
-- snapshot, marks the row, calls the handler and records its end, each in a transaction of its own and
-- without a lock, so the transactions of any number of workers mix, and with them those that enqueue.
use reminder.Prelude.{ℕ, String, Bool, true, false, Option, some, List, [], ◌∷◌, eqb, if◌then◌else◌}
use reminder.Outbox.Event.{Status, pending, failed, OutboxEvent, Settings}
use reminder.Outbox.Table.{get_outbox_event_by_id, Request, enqueue_outbox_event}
use reminder.Outbox.Worker.{mark_outbox_running, Applied, conclude}

-- How far a worker is: with no event, behind its snapshot, or behind `mark_outbox_running`, while the
-- handler runs.
pub data Phase (P : Type 0) : Type 0 where
  idle : Phase P
  loaded : OutboxEvent P → Phase P
  called : OutboxEvent P → Phase P

pub record Site (P : Type 0) : Type 0 where
  pub outbox : List (OutboxEvent P)
  pub workers : ℕ → Phase P

-- One transaction, by the worker of the number, or of anyone who enqueues, a handler included. A
-- worker that stops loses its snapshot.
pub data Action (P : Type 0) : Type 0 where
  load : (worker : ℕ) → (event_id : String) → Action P
  mark : (worker now : ℕ) → Action P
  finish : (worker now : ℕ) → Applied → Action P
  stop : (worker : ℕ) → Action P
  enqueue : (new_id : String) → (now : ℕ) → Request P → Action P

abbrev pub waits : Status → Bool
waits pending = true
waits failed = true
waits _ = false

module _ {P : Type 0} where
  abbrev pub moved : (worker : ℕ) → Phase P → (ℕ → Phase P) → ℕ → Phase P
  moved worker phase workers k = if eqb worker k then phase else workers k

  -- The snapshot of a worker that has none, and the tests of its status.
  unfoldable pub load_step : (worker : ℕ) → Option (OutboxEvent P) → Phase P → Site P → Site P
  load_step worker (some event) idle s =
      if waits event.status then record s { workers = moved worker (loaded event) s.workers } else s
  load_step worker _ _ s = s

  unfoldable pub mark_step : (worker now : ℕ) → Phase P → Site P → Site P
  mark_step worker now (loaded event) s = record {
    outbox = mark_outbox_running now event s.outbox;
    workers = moved worker (called event) s.workers;
  }
  mark_step worker now _ s = s

  unfoldable pub finish_step : Settings → (worker now : ℕ) → Applied → Phase P → Site P → Site P
  unfolding conclude
  finish_step settings worker now r (called event) s = record {
    outbox = (conclude {W = Unit {0}} settings now event r tt s.outbox).1.outbox;
    workers = moved worker idle s.workers;
  }
  finish_step settings worker now r _ s = s

  unfoldable pub step : Settings → Action P → Site P → Site P
  unfolding load_step mark_step finish_step get_outbox_event_by_id enqueue_outbox_event
  step settings (load worker event_id) s =
      load_step worker (get_outbox_event_by_id event_id s.outbox) (s.workers worker) s
  step settings (mark worker now) s = mark_step worker now (s.workers worker) s
  step settings (finish worker now r) s = finish_step settings worker now r (s.workers worker) s
  step settings (stop worker) s = record s { workers = moved worker idle s.workers }
  step settings (enqueue new_id now request) s = record s {
    outbox = (enqueue_outbox_event settings new_id now request s.outbox).1;
  }

  unfoldable pub run : Settings → List (Action P) → Site P → Site P
  unfolding step
  run settings [] s = s
  run settings (action ∷ rest) s = run settings rest (step settings action s)
