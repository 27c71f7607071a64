-- ===== src/Outbox/Crash.antt =====
-- A worker that stops behind `mark_outbox_running`: what the rows give to the workers after it.
use reminder.Prelude.{
  ℕ, ◌+◌, String, ◌≡◌, refl, true, Option, none, some, List, [], ◌∷◌, ◌≢◌, arith, All, All-take,
  All-sort_by, All-keep, eq_refl, keep, sort_by,
}
use reminder.Outbox.Event.{running, OutboxEvent, Settings}
use reminder.Outbox.Table.{get_outbox_event_by_id, is_dispatchable, list_dispatchable_outbox_events}
use reminder.Outbox.Worker.{mark_outbox_running, Handler, System, process_outbox_event_by_id}
use reminder.Outbox.Delivery.{get-mark_outbox_running}
use reminder.Outbox.Retries.{deliveries, process-found, settle_running}

module _ {P W : Type 0} (settings : Settings) (handle : Handler P W) where
  running_stays :
      (times : List ℕ) (i : String) (s : System P W) (event : OutboxEvent P)
      → get_outbox_event_by_id i s.outbox ≡ some event
      → event.status ≡ running
      → get_outbox_event_by_id i (deliveries settings handle times i s).outbox ≡ some event
  running_stays [] i s event e h = e
  running_stays (now ∷ times) i s event e h =
      running_stays times i (process_outbox_event_by_id settings handle now i s).1 event
        (cc (
          process-found settings handle now i s e,
          settle_running settings now event.status event (handle event s.world).0 h,
        ))
        h

  -- Where a worker stops between `mark_outbox_running` and the record of how the handler ended, no
  -- later delivery takes the event up again: at any times, each leaves the row as the mark wrote it.
  pub crash_stays_running :
      (now : ℕ) (times : List ℕ) (s : System P W) (event : OutboxEvent P)
      → get_outbox_event_by_id event.id s.outbox ≡ some event
      → get_outbox_event_by_id event.id
          (deliveries settings handle times event.id
            (record s { outbox = mark_outbox_running now event s.outbox })).outbox
        ≡ some (record event {
          status = running;
          attempt_count = event.attempt_count + 1;
          next_attempt_at = none;
          locked_at = some now;
          last_error = none;
        })
  crash_stays_running now times s event e =
      running_stays times event.id (record s { outbox = mark_outbox_running now event s.outbox }) _
        (cc (get-mark_outbox_running now event event.id s.outbox e, eq_refl event.id)) refl

module _ {P : Type 0} where
  not_running :
      (now : ℕ) (target : Option String) (event : OutboxEvent P)
      → is_dispatchable (some now) target event ≡ true
      → event.status ≢ running
  unfolding is_dispatchable
  not_running now target event h = ground arith

  -- No batch lists a running event, at any time.
  pub running_unlisted :
      (limit now : ℕ) (target : Option String) (outbox : List (OutboxEvent P))
      → All
          (λ event. event.status ≢ running)
          (list_dispatchable_outbox_events limit target (some now) outbox)
  unfolding list_dispatchable_outbox_events
  running_unlisted limit now target outbox =
      let rank = λ (event : OutboxEvent P). event.created_at in
      let waiting = keep (is_dispatchable (some now) target) outbox in
      All-take _ limit (sort_by rank waiting)
        (All-sort_by rank _ waiting (All-keep _ _ outbox (not_running now target)))
