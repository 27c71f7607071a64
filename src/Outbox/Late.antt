-- ===== src/Outbox/Late.antt =====
-- Two workers with a snapshot of one event, as the transactions of Outbox/Overlap.antt.
use reminder.Prelude.{ℕ, ◌+◌, ◌≡◌, refl, ap, ◌∙◌, true, none, some, List, [], ◌∷◌, eq_refl, arith}
use reminder.Outbox.Event.{running, OutboxEvent, Settings}
use reminder.Outbox.Table.{get_outbox_event_by_id, assign_status}
use reminder.Outbox.Worker.{mark_outbox_running, mark_outbox_succeeded, applied, conclude}
use reminder.Outbox.Rows.{get-update}
use reminder.Outbox.Overlap.{
  idle, loaded, Site, Action, load, mark, finish, waits, moved, load_step, mark_step, finish_step,
  step, run,
}
use reminder.Outbox.Schedules.{alone}

module _ {P : Type 0} (settings : Settings) where
  -- Both workers take their snapshot, the first delivers the event, and the second marks it.
  abbrev pub late_mark : (marked finished late : ℕ) → OutboxEvent P → List (Action P)
  late_mark marked finished late event =
      load 0 event.id
      ∷ load 1 event.id
      ∷ mark 0 marked
      ∷ finish 0 finished applied
      ∷ mark 1 late
      ∷ []

  loads :
      (worker : ℕ) (event : OutboxEvent P) (s : Site P)
      → get_outbox_event_by_id event.id s.outbox ≡ some event
      → waits event.status ≡ true
      → load_step worker (get_outbox_event_by_id event.id s.outbox) idle s
        ≡ record s { workers = moved worker (loaded event) s.workers }
  unfolding load_step
  loads worker event s e w = rw e (rw w refl)

  get-late :
      (marked finished late : ℕ) (event : OutboxEvent P) (outbox : List (OutboxEvent P))
      → get_outbox_event_by_id event.id outbox ≡ some event
      → get_outbox_event_by_id event.id (
          mark_outbox_running late event
            (mark_outbox_succeeded finished event.id (mark_outbox_running marked event outbox)))
        ≡ some (record event {
          status = running;
          attempt_count = event.attempt_count + 1;
          next_attempt_at = none;
          locked_at = some late;
          processed_at = some finished;
          last_error = none;
        })
  unfolding mark_outbox_running mark_outbox_succeeded assign_status
  get-late marked finished late event outbox e =
      rw get-update (rw get-update (rw get-update (ground (arith, e, eq_refl event.id))))

  -- A delivered event is opened again: where two workers hold a snapshot of an event that waits, and
  -- the second marks it after the first has recorded its success, the row is running again, with one
  -- attempt counted for both calls of the handler.
  pub late_mark_reopens :
      (marked finished late : ℕ) (event : OutboxEvent P) (outbox : List (OutboxEvent P))
      → get_outbox_event_by_id event.id outbox ≡ some event
      → waits event.status ≡ true
      → get_outbox_event_by_id event.id
          (run settings (late_mark marked finished late event) (alone outbox)).outbox
        ≡ some (record event {
          status = running;
          attempt_count = event.attempt_count + 1;
          next_attempt_at = none;
          locked_at = some late;
          processed_at = some finished;
          last_error = none;
        })
  unfolding run step mark_step finish_step conclude
  late_mark_reopens marked finished late event outbox e w =
      let rest : List (Action P) = mark 0 marked ∷ finish 0 finished applied ∷ mark 1 late ∷ [] in
      let first : Site P = record (alone outbox) {
        workers = moved 0 (loaded event) (alone outbox).workers;
      } in
      let shown = λ (s : Site P). get_outbox_event_by_id event.id s.outbox in
      ap (λ (s : Site P). shown (run settings (load 1 event.id ∷ rest) s))
        (loads 0 event (alone outbox) e w)
      ∙ ap (λ (s : Site P). shown (run settings rest s)) (loads 1 event first e w)
      ∙ get-late marked finished late event outbox e
