-- ===== src/Outbox/Invariant.antt =====
-- What holds of every row between two transactions, and that enqueueing keeps it.
use reminder.Prelude.{
  ℕ, ◌≤◌, ◌<◌, String, ◌≡◌, subst, ◌≢◌, inl, inr, none, some, List, arith, Option-cases,
}
use reminder.Outbox.Event.{
  pending, running, succeeded, failed, dead_letter, OutboxEvent, Settings, should_dead_letter,
}
use reminder.Outbox.Table.{
  get_outbox_event_by_id, get_outbox_event_by_idempotency_key, Request, request_key, new_row,
  enqueue_outbox_event,
}
use reminder.Outbox.Worker.{failure_status, Applied, applied, threw}
use reminder.Outbox.Delivery.{settled}
use reminder.Outbox.Enqueue.{enqueue_new, enqueue_old, get-append}

-- A row that waits has attempts left, a closed row has no next attempt and no lock, a succeeded row
-- has its time and no error, a dead letter has its error.
pub record IsSound {P : Type 0} (event : OutboxEvent P) : Type 0 where
  pub attempts_bounded : event.attempt_count ≤ event.max_attempts
  pub pending_has_attempts : event.status ≡ pending → event.attempt_count < event.max_attempts
  pub failed_has_attempts : event.status ≡ failed → event.attempt_count < event.max_attempts
  pub failed_has_due : event.status ≡ failed → event.next_attempt_at ≢ none
  pub dead_has_no_due : event.status ≡ dead_letter → event.next_attempt_at ≡ none
  pub dead_has_error : event.status ≡ dead_letter → event.last_error ≢ none
  pub succeeded_at : event.status ≡ succeeded → event.processed_at ≢ none
  pub succeeded_clean : event.status ≡ succeeded → event.last_error ≡ none
  pub unlocked : event.status ≢ running → event.locked_at ≡ none

abbrev pub AllSound : {P : Type 0} → List (OutboxEvent P) → Type 0
AllSound {P} outbox =
    (j : String) (event : OutboxEvent P)
    → get_outbox_event_by_id j outbox ≡ some event
    → IsSound event

module _ {P : Type 0} (settings : Settings) where
  pub settled-IsSound :
      (now : ℕ) (event : OutboxEvent P) (r : Applied)
      → event.attempt_count < event.max_attempts
      → IsSound (settled settings now event r)
  unfolding failure_status should_dead_letter
  settled-IsSound now event applied h = ground arith
  settled-IsSound now event (threw exc) h = ground arith

module _ {P : Type 0} where
  new_row-IsSound :
      (settings : Settings) (new_id : String) (now : ℕ) (r : Request P)
      → 0 < settings.event_max_attempts
      → IsSound (new_row settings new_id now r)
  unfolding new_row
  new_row-IsSound settings new_id now r h = ground arith

  -- Enqueueing keeps every row sound, where at least one attempt is configured.
  pub enqueue-AllSound :
      (settings : Settings) (new_id : String) (now : ℕ) (r : Request P)
      (outbox : List (OutboxEvent P))
      → 0 < settings.event_max_attempts
      → AllSound outbox
      → AllSound (enqueue_outbox_event settings new_id now r outbox).1
  enqueue-AllSound settings new_id now r outbox pos h j found =
      elim (Option-cases (get_outbox_event_by_idempotency_key (request_key r) outbox)) [
        | inl e ↦ rw (enqueue_new settings new_id now r outbox e) λ got.
            elim (get-append j outbox (new_row settings new_id now r) found got) [
              | inl old ↦ h j found old
              | inr new ↦ subst IsSound new (new_row-IsSound settings new_id now r pos)
            ]
        | inr (event, e) ↦ rw (enqueue_old settings new_id now r outbox e) (h j found)
      ]
