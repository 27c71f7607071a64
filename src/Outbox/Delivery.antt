-- ===== src/Outbox/Delivery.antt =====
-- What one delivery leaves in the row of its event, for each end of the handler.
use reminder.Prelude.{
  ℕ, ◌+◌, String, ◌≡◌, refl, subst, ◌∙◌, inl, inr, false, Option, none, some, List, [], ◌∷◌, ◌++◌,
  ◌==◌, if◌then◌else◌, eq_iff, eq_refl, arith, Bool-cases, Option-cases, find_row-append_some,
}
use reminder.Outbox.Event.{
  Status, pending, running, succeeded, failed, dead_letter, OutboxEvent, Settings,
  calculate_next_attempt_at, bounded_error_detail,
}
use reminder.Outbox.Table.{
  get_outbox_event_by_id, get_outbox_event_by_idempotency_key, assign_status, Request, request_key,
  new_row, enqueue_outbox_event,
}
use reminder.Outbox.Worker.{
  mark_outbox_running, mark_outbox_succeeded, failure_status, mark_outbox_failed, Applied, applied,
  threw, Enqueued, enqueue_all, conclude, Handler, System, Report, delivered, reraised, attempt,
  process_snapshot, process_outbox_event_by_id,
}
use reminder.Outbox.Rows.{get-update, id-get}
use reminder.Outbox.Enqueue.{enqueue_new, enqueue_old}

module _ {P : Type 0} where
  -- The row behind a delivery, from the row before it.
  abbrev pub settled : Settings → ℕ → OutboxEvent P → Applied → OutboxEvent P
  settled settings now event applied = record event {
    status = succeeded;
    attempt_count = event.attempt_count + 1;
    next_attempt_at = none;
    locked_at = none;
    processed_at = some now;
    last_error = none;
  }
  settled settings now event (threw exc) = record event {
    status = failure_status settings event exc;
    attempt_count = event.attempt_count + 1;
    next_attempt_at = elim (failure_status settings event exc) [
      | dead_letter ↦ none
      | _ ↦ some (calculate_next_attempt_at settings now (event.attempt_count + 1))
    ];
    locked_at = none;
    last_error = some (bounded_error_detail settings event exc);
  }

module _ {P : Type 0} where
  -- A delivery settles a row that waits, and leaves any other.
  abbrev pub settle : Settings → ℕ → Status → OutboxEvent P → Applied → OutboxEvent P
  settle settings now pending event r = settled settings now event r
  settle settings now failed event r = settled settings now event r
  settle settings now _ event r = event

abbrev pub reported : Applied → Report
reported applied = delivered
reported (threw exc) = reraised exc

module _ {P : Type 0} where
  pub get-mark_outbox_running :
      (now : ℕ) (event : OutboxEvent P) (j : String) (outbox : List (OutboxEvent P))
      → get_outbox_event_by_id event.id outbox ≡ some event
      → get_outbox_event_by_id j (mark_outbox_running now event outbox) ≡ (
          if event.id == j
          then some (record event {
            status = running;
            attempt_count = event.attempt_count + 1;
            next_attempt_at = none;
            locked_at = some now;
            last_error = none;
          })
          else get_outbox_event_by_id j outbox)
  unfolding mark_outbox_running assign_status
  get-mark_outbox_running now event j outbox e = rw get-update (ground (arith, eq_iff event.id j))

-- Enqueueing leaves the rows that are there.
module _ {P : Type 0} (settings : Settings) (now : ℕ) where
  get-append_some :
      (j : String) (outbox : List (OutboxEvent P)) (new : OutboxEvent P) {found : OutboxEvent P}
      → get_outbox_event_by_id j outbox ≡ some found
      → get_outbox_event_by_id j (outbox ++ (new ∷ [])) ≡ some found
  unfolding get_outbox_event_by_id
  get-append_some j outbox new e =
      find_row-append_some (λ (event : OutboxEvent P). event.id) j outbox (new ∷ []) e

  pub get-enqueue_outbox_event :
      (new_id : String) (r : Request P) (j : String) (outbox : List (OutboxEvent P))
      {found : OutboxEvent P}
      → get_outbox_event_by_id j outbox ≡ some found
      → get_outbox_event_by_id j (enqueue_outbox_event settings new_id now r outbox).1 ≡ some found
  get-enqueue_outbox_event new_id r j outbox e =
      elim (Option-cases (get_outbox_event_by_idempotency_key (request_key r) outbox)) [
        | inl new ↦
            rw (enqueue_new settings new_id now r outbox new)
              (get-append_some j outbox (new_row settings new_id now r) e)
        | inr (event, old) ↦ rw (enqueue_old settings new_id now r outbox old) e
      ]

  pub get-enqueue_all :
      (enqueued : Enqueued P) (j : String) (outbox : List (OutboxEvent P)) {found : OutboxEvent P}
      → get_outbox_event_by_id j outbox ≡ some found
      → get_outbox_event_by_id j (enqueue_all settings now enqueued outbox) ≡ some found
  unfolding enqueue_all
  get-enqueue_all [] j outbox e = e
  get-enqueue_all ((new_id, r) ∷ enqueued) j outbox e =
      get-enqueue_all enqueued j (enqueue_outbox_event settings new_id now r outbox).1
        (get-enqueue_outbox_event new_id r j outbox e)

module _ {P : Type 0} where
  -- The row of an event as `mark_outbox_running` leaves it.
  abbrev pub started : ℕ → OutboxEvent P → OutboxEvent P
  started now event = record event {
    status = running;
    attempt_count = event.attempt_count + 1;
    next_attempt_at = none;
    locked_at = some now;
    last_error = none;
  }

module _ {P W : Type 0} (settings : Settings) where
  conclude_self :
      (now : ℕ) (event : OutboxEvent P) (r : Applied) (world : W) (outbox : List (OutboxEvent P))
      → get_outbox_event_by_id event.id outbox ≡ some (started now event)
      → get_outbox_event_by_id event.id (conclude settings now event r world outbox).1.outbox
        ≡ some (settled settings now event r)
  unfolding conclude mark_outbox_succeeded mark_outbox_failed assign_status failure_status
  conclude_self now event applied world outbox e =
      rw get-update (ground (arith, e, eq_refl event.id))
  conclude_self now event (threw exc) world outbox e =
      rw get-update (ground (arith, e, eq_refl event.id))

  pub conclude-other :
      (now : ℕ) (event : OutboxEvent P) (r : Applied) (world : W) (outbox : List (OutboxEvent P))
      (j : String)
      → (event.id == j) ≡ false
      → get_outbox_event_by_id j (conclude settings now event r world outbox).1.outbox
        ≡ get_outbox_event_by_id j outbox
  unfolding conclude mark_outbox_succeeded mark_outbox_failed
  conclude-other now event applied world outbox j e = rw get-update (rw e refl)
  conclude-other now event (threw exc) world outbox j e = rw get-update (rw e refl)

module _ {P W : Type 0} (settings : Settings) (handle : Handler P W) where
  -- What a delivery at `now` makes of the row that it finds.
  abbrev pub advance : (now : ℕ) → W → OutboxEvent P → OutboxEvent P
  advance now world event = settle settings now event.status event (handle event world).0

  attempt_self :
      (now : ℕ) (event : OutboxEvent P) (s : System P W)
      → get_outbox_event_by_id event.id s.outbox ≡ some event
      → get_outbox_event_by_id event.id (attempt settings handle now event s).1.outbox
        ≡ some (settled settings now event (handle event s.world).0)
  unfolding attempt
  attempt_self now event s e =
      conclude_self settings now event (handle event s.world).0 (handle event s.world).2
        (enqueue_all settings now (handle event s.world).1 (mark_outbox_running now event s.outbox))
        (get-enqueue_all settings now (handle event s.world).1 event.id
          (mark_outbox_running now event s.outbox)
          (cc (get-mark_outbox_running now event event.id s.outbox e, eq_refl event.id)))

  attempt-other :
      (now : ℕ) (event : OutboxEvent P) (s : System P W) (j : String) (old : OutboxEvent P)
      → get_outbox_event_by_id event.id s.outbox ≡ some event
      → (event.id == j) ≡ false
      → get_outbox_event_by_id j s.outbox ≡ some old
      → get_outbox_event_by_id j (attempt settings handle now event s).1.outbox ≡ some old
  unfolding attempt
  attempt-other now event s j old e other f =
      conclude-other settings now event (handle event s.world).0 (handle event s.world).2
        (enqueue_all settings now (handle event s.world).1 (mark_outbox_running now event s.outbox))
        j other
      ∙ get-enqueue_all settings now (handle event s.world).1 j
          (mark_outbox_running now event s.outbox)
          (cc (get-mark_outbox_running now event j s.outbox e, other, f))

  snapshot_self :
      (now : ℕ) (event : OutboxEvent P) (s : System P W)
      → get_outbox_event_by_id event.id s.outbox ≡ some event
      → get_outbox_event_by_id event.id
          (process_snapshot settings handle now (some event) s).1.outbox
        ≡ some (advance now s.world event)
  unfolding process_snapshot
  snapshot_self now event s e = ground (arith, e, attempt_self now event s e)

  snapshot-other :
      (now : ℕ) (found : Option (OutboxEvent P)) (i : String) (s : System P W) (j : String)
      (old : OutboxEvent P)
      → get_outbox_event_by_id i s.outbox ≡ found
      → (i == j) ≡ false
      → get_outbox_event_by_id j s.outbox ≡ some old
      → get_outbox_event_by_id j (process_snapshot settings handle now found s).1.outbox ≡ some old
  unfolding process_snapshot
  snapshot-other now none i s j old e other f = f
  snapshot-other now (some event) i s j old e other f =
      let same = id-get i s.outbox e in
      ground (arith, f, attempt-other now event s j old (simp same e) (rw same other) f)

  -- Delivering the event `i` changes no row but the row `i`, and that one by `advance`: a row that
  -- waits is settled by the handler's end, and any other row stays as it is, whatever the handler
  -- enqueues behind them.
  pub process-row :
      (now : ℕ) (i : String) (s : System P W) (j : String) (old : OutboxEvent P)
      → get_outbox_event_by_id j s.outbox ≡ some old
      → get_outbox_event_by_id j (process_outbox_event_by_id settings handle now i s).1.outbox
        ≡ some (if i == j then advance now s.world old else old)
  unfolding process_outbox_event_by_id
  process-row now i s j old e = elim (Bool-cases (i == j)) [
    | inl here ↦
        let same : i ≡ j = (eq_iff i j).0 here in
        let there : get_outbox_event_by_id i s.outbox ≡ some old = cc (same, e) in
        let own : old.id ≡ i = id-get i s.outbox there in
        let done = snapshot_self now old s (cc (own, there)) in
        rw (here, there)
          (subst
            (λ k.
              get_outbox_event_by_id k (process_snapshot settings handle now (some old) s).1.outbox
              ≡ some (advance now s.world old))
            (own ∙ same) done)
    | inr other ↦
        rw other (snapshot-other now (get_outbox_event_by_id i s.outbox) i s j old refl other e)
  ]
