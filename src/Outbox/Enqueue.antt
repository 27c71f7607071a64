-- ===== src/Outbox/Enqueue.antt =====
-- Enqueueing: only the first request of an idempotency key writes.
use reminder.Prelude.{
  ℕ, String, ◌≡◌, ◌⊎◌, inl, inr, none, some, List, [], ◌∷◌, ◌++◌, eq_refl, arith, Option-cases,
  find_row-append,
}
use reminder.Outbox.Event.{OutboxEvent, Settings}
use reminder.Outbox.Table.{
  get_outbox_event_by_id, get_outbox_event_by_idempotency_key, Request, request_key, new_row,
  enqueue_outbox_event,
}

module _ {P : Type 0} where
  pub enqueue_new :
      (settings : Settings) (new_id : String) (now : ℕ) (r : Request P)
      (outbox : List (OutboxEvent P))
      → get_outbox_event_by_idempotency_key (request_key r) outbox ≡ none
      → enqueue_outbox_event settings new_id now r outbox
        ≡ (new_row settings new_id now r, outbox ++ (new_row settings new_id now r ∷ []))
  unfolding enqueue_outbox_event
  enqueue_new settings new_id now r outbox e = rw (e, enqueue_outbox_event)

  pub enqueue_old :
      (settings : Settings) (new_id : String) (now : ℕ) (r : Request P)
      (outbox : List (OutboxEvent P)) {event : OutboxEvent P}
      → get_outbox_event_by_idempotency_key (request_key r) outbox ≡ some event
      → enqueue_outbox_event settings new_id now r outbox ≡ (event, outbox)
  unfolding enqueue_outbox_event
  enqueue_old settings new_id now r outbox e = rw (e, enqueue_outbox_event)

  -- What enqueueing returns is afterwards the row of the request's key.
  pub enqueue_stores :
      (settings : Settings) (new_id : String) (now : ℕ) (r : Request P)
      (outbox : List (OutboxEvent P))
      → get_outbox_event_by_idempotency_key
          (request_key r)
          (enqueue_outbox_event settings new_id now r outbox).1
        ≡ some (enqueue_outbox_event settings new_id now r outbox).0
  unfolding get_outbox_event_by_idempotency_key new_row
  enqueue_stores settings new_id now r outbox =
      elim (Option-cases (get_outbox_event_by_idempotency_key (request_key r) outbox)) [
        | inl e ↦ rw (enqueue_new settings new_id now r outbox e) (
            rw
              (find_row-append (λ (event : OutboxEvent P). event.idempotency_key) (request_key r)
                outbox (new_row settings new_id now r) e)
              (rw eq_refl))
        | inr (event, e) ↦ rw (enqueue_old settings new_id now r outbox e) e
      ]

  -- A second request with the same key returns the row of the first and writes nothing, whatever its
  -- payload, its time and the id that was drawn for it.
  pub enqueue_again :
      (settings : Settings) (id id' : String) (now now' : ℕ) (r r' : Request P)
      (outbox : List (OutboxEvent P))
      → request_key r' ≡ request_key r
      → enqueue_outbox_event settings id' now' r' (enqueue_outbox_event settings id now r outbox).1
        ≡ enqueue_outbox_event settings id now r outbox
  enqueue_again settings id id' now now' r r' outbox same =
      enqueue_old settings id' now' r' (enqueue_outbox_event settings id now r outbox).1
        (rw same (enqueue_stores settings id now r outbox))

  pub get-append :
      (j : String) (outbox : List (OutboxEvent P)) (event found : OutboxEvent P)
      → get_outbox_event_by_id j (outbox ++ (event ∷ [])) ≡ some found
      → (get_outbox_event_by_id j outbox ≡ some found) ⊎ (event ≡ found)
  unfolding get_outbox_event_by_id
  get-append j [] event found e = ground arith
  get-append j (x ∷ outbox) event found e = ground (arith, get-append j outbox event found)
