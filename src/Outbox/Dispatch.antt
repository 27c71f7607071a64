-- ===== src/Outbox/Dispatch.antt =====
-- Choosing what to deliver, and the totals of a batch.
use reminder.Prelude.{
  ℕ, ◌+◌, ◌≤◌, String, ◌≡◌, refl, ◌⊎◌, true, Option, some, List, [], ◌∷◌, map, arith, length, All,
  keep, length-take, All-keep, All-take, All-sort_by, sort_by, length-map, ◌∙◌, IsOrdered,
  sort_by-IsOrdered, take-IsOrdered,
}
use reminder.Outbox.Event.{pending, failed, OutboxEvent, Settings}
use reminder.Outbox.Table.{is_dispatchable, list_dispatchable_outbox_events}
use reminder.Outbox.Worker.{
  Handler, System, process_outbox_event_by_id, dispatch_ids, dispatch_pending_outbox_events,
}

-- A row that a worker may deliver at `now`.
pub record IsDue {P : Type 0} (now : ℕ) (event : OutboxEvent P) : Type 0 where
  pub waits : (event.status ≡ pending) ⊎ (event.status ≡ failed)
  pub due : (t : ℕ) → event.next_attempt_at ≡ some t → t ≤ now

module _ {P : Type 0} where
  is_dispatchable-IsDue :
      (now : ℕ) (target : Option String) (event : OutboxEvent P)
      → is_dispatchable (some now) target event ≡ true
      → IsDue now event
  unfolding is_dispatchable
  is_dispatchable-IsDue now target event h = record {
    waits = ground arith;
    due = λ t e. ground arith;
  }

  -- A worker is handed at most `limit` rows, each of them due, the oldest first.
  pub list_dispatchable-IsDue :
      (limit now : ℕ) (target : Option String) (outbox : List (OutboxEvent P))
      → (length (list_dispatchable_outbox_events limit target (some now) outbox) ≤ limit)
        × All (IsDue now) (list_dispatchable_outbox_events limit target (some now) outbox)
        × IsOrdered
            (λ event. event.created_at)
            (list_dispatchable_outbox_events limit target (some now) outbox)
  unfolding list_dispatchable_outbox_events
  list_dispatchable-IsDue limit now target outbox =
      let waiting = keep (is_dispatchable (some now) target) outbox in
      (
        omega (
          arith,
          length-take limit (sort_by (λ (event : OutboxEvent P). event.created_at) waiting),
        ),
        All-take _ limit (sort_by (λ (event : OutboxEvent P). event.created_at) waiting) (
            All-sort_by (λ (event : OutboxEvent P). event.created_at) _ waiting
              (All-keep _ (is_dispatchable (some now) target) outbox
                (is_dispatchable-IsDue now target))),
        take-IsOrdered _ limit _ (sort_by-IsOrdered _ waiting),
      )

module _ {P W : Type 0} (settings : Settings) (handle : Handler P W) where
  counts-dispatch_ids :
      (now : ℕ) (ids : List String) (s : System P W)
      → (dispatch_ids settings handle now ids s).0.0 + (dispatch_ids settings handle now ids s).0.1
        ≡ length ids
  unfolding dispatch_ids
  counts-dispatch_ids now [] s = refl
  counts-dispatch_ids now (i ∷ ids) s =
      ground
        (arith, counts-dispatch_ids now ids (process_outbox_event_by_id settings handle now i s).1)

  -- A batch reports how many rows it was handed, and each of them as dispatched or as failed.
  pub dispatch_totals :
      (now limit : ℕ) (target : Option String) (s : System P W)
      → let totals = (dispatch_pending_outbox_events settings handle now limit target s).0 in
        (totals.0 ≡ length (list_dispatchable_outbox_events limit target (some now) s.outbox))
        × (totals.1 + totals.2 ≡ totals.0)
        × (totals.0 ≤ limit)
  unfolding dispatch_pending_outbox_events
  dispatch_totals now limit target s =
      let events = list_dispatchable_outbox_events limit target (some now) s.outbox in
      (
        refl,
        counts-dispatch_ids now (map (λ (event : OutboxEvent P). event.id) events) s
            ∙ length-map events (λ (event : OutboxEvent P). event.id),
        (list_dispatchable-IsDue limit now target s.outbox).0,
      )
