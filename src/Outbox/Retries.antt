-- ===== src/Outbox/Retries.antt =====
-- Repeated deliveries of one event, whatever the handler enqueues meanwhile: where the event ends.
use reminder.Prelude.{
  ℕ, ◌+◌, ◌≤◌, ◌<◌, String, ◌≡◌, refl, ◌⊎◌, inl, inr, some, List, [], ◌∷◌, eq_refl, arith, length,
}
use reminder.Outbox.Event.{
  Status, pending, running, succeeded, failed, dead_letter, OutboxEvent, Settings,
}
use reminder.Outbox.Table.{get_outbox_event_by_id}
use reminder.Outbox.Worker.{
  failure_status, Applied, applied, threw, Handler, System, process_outbox_event_by_id,
}
use reminder.Outbox.Delivery.{settled, settle, process-row}
use reminder.Outbox.Invariant.{IsSound, settled-IsSound}

module _ {P W : Type 0} (settings : Settings) (handle : Handler P W) where
  -- The event `i` delivered at each time of the list.
  abbrev pub deliveries : List ℕ → String → System P W → System P W
  deliveries [] i s = s
  deliveries (now ∷ times) i s =
      deliveries times i (process_outbox_event_by_id settings handle now i s).1

  pub process-found :
      (now : ℕ) (i : String) (s : System P W) {event : OutboxEvent P}
      → get_outbox_event_by_id i s.outbox ≡ some event
      → get_outbox_event_by_id i (process_outbox_event_by_id settings handle now i s).1.outbox
        ≡ some (settle settings now event.status event (handle event s.world).0)
  process-found now i s {event} e = cc (process-row settings handle now i s i event e, eq_refl i)

abbrev pub Closed : Status → Type 0
Closed status = (status ≡ succeeded) ⊎ (status ≡ dead_letter)

abbrev pub Waiting : Status → Type 0
Waiting status = (status ≡ pending) ⊎ (status ≡ failed)

module _ {P : Type 0} (settings : Settings) where
  settle-Closed :
      (now : ℕ) (status : Status) (event : OutboxEvent P) (r : Applied)
      → Closed status
      → settle settings now status event r ≡ event
  settle-Closed now status event r c = ground arith

  settle-Waiting :
      (now : ℕ) (status : Status) (event : OutboxEvent P) (r : Applied)
      → Waiting status
      → settle settings now status event r ≡ settled settings now event r
  settle-Waiting now status event r w = ground arith

  -- One delivery closes a row or leaves it waiting with one attempt fewer left.
  settled_progress :
      (now : ℕ) (event : OutboxEvent P) (r : Applied)
      → Closed (settled settings now event r).status ⊎ Waiting (settled settings now event r).status
  unfolding failure_status
  settled_progress now event applied = ground arith
  settled_progress now event (threw exc) = ground arith

  attempts-settled :
      (now : ℕ) (event : OutboxEvent P) (r : Applied)
      → (settled settings now event r).attempt_count ≡ event.attempt_count + 1
  attempts-settled now event applied = refl
  attempts-settled now event (threw exc) = refl

  max-settled :
      (now : ℕ) (event : OutboxEvent P) (r : Applied)
      → (settled settings now event r).max_attempts ≡ event.max_attempts
  max-settled now event applied = refl
  max-settled now event (threw exc) = refl

Waiting-has_attempts :
    {P : Type 0} {event : OutboxEvent P}
    → IsSound event
    → Waiting event.status
    → event.attempt_count < event.max_attempts
Waiting-has_attempts sound (inl e) = sound.pending_has_attempts e
Waiting-has_attempts sound (inr e) = sound.failed_has_attempts e

module _ {P W : Type 0} (settings : Settings) (handle : Handler P W) where
  Closed-stays :
      (times : List ℕ) (i : String) (s : System P W) (event : OutboxEvent P)
      → get_outbox_event_by_id i s.outbox ≡ some event
      → Closed event.status
      → get_outbox_event_by_id i (deliveries settings handle times i s).outbox ≡ some event
  Closed-stays [] i s event e c = e
  Closed-stays (now ∷ times) i s event e c =
      Closed-stays times i (process_outbox_event_by_id settings handle now i s).1 event
        (cc (
          process-found settings handle now i s e,
          settle-Closed settings now event.status event (handle event s.world).0 c,
        ))
        c

  deliveries_progress :
      (times : List ℕ) (i : String) (s : System P W) (event : OutboxEvent P)
      → get_outbox_event_by_id i s.outbox ≡ some event
      → IsSound event
      → Closed event.status ⊎ Waiting event.status
      → event.max_attempts ≤ event.attempt_count + length times
      → (final : OutboxEvent P) × (get_outbox_event_by_id i
            (deliveries settings handle times i s).outbox
          ≡ some final)
        × Closed final.status
  deliveries_progress times i s event e sound (inl c) enough =
      (event, Closed-stays times i s event e c, c)
  deliveries_progress [] i s event e sound (inr w) enough =
      absurd (omega (arith, Waiting-has_attempts sound w))
  deliveries_progress (now ∷ times) i s event e sound (inr w) enough =
      let r = (handle event s.world).0 in
      deliveries_progress times i (process_outbox_event_by_id settings handle now i s).1
        (settled settings now event r)
        (cc (
          process-found settings handle now i s e,
          settle-Waiting settings now event.status event r w,
        ))
        (settled-IsSound settings now event r (Waiting-has_attempts sound w))
        (settled_progress settings now event r)
        (omega (arith, attempts-settled settings now event r, max-settled settings now event r))

  -- A sound event that waits is succeeded or a dead letter once it has been delivered as often as
  -- it has attempts left, however the handler ends each time.
  pub deliveries_close :
      (times : List ℕ) (i : String) (s : System P W) (event : OutboxEvent P)
      → get_outbox_event_by_id i s.outbox ≡ some event
      → IsSound event
      → Waiting event.status
      → event.max_attempts ≤ event.attempt_count + length times
      → (final : OutboxEvent P) × (get_outbox_event_by_id i
            (deliveries settings handle times i s).outbox
          ≡ some final)
        × Closed final.status
  deliveries_close times i s event e sound w enough =
      deliveries_progress times i s event e sound (inr w) enough

module _ {P : Type 0} (settings : Settings) where
  pub settle_running :
      (now : ℕ) (status : Status) (event : OutboxEvent P) (r : Applied)
      → status ≡ running
      → settle settings now status event r ≡ event
  settle_running now status event r e = ground arith
