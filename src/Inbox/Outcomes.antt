-- ===== src/Inbox/Outcomes.antt =====
-- Repeated dispatches of one inbox event: the queue delivers it at least once, and the sweep of the
-- pending events enqueues it again.
use reminder.Prelude.{
  ℕ, ◌+◌, String, ◌≡◌, ◌≢◌, refl, ap, ◌∙◌, inl, true, Option, some, List, [], ◌∷◌, eq_refl, arith,
  length,
}
use reminder.Inbox.Table.{pending, InboxEvent, get_event}
use reminder.Inbox.Worker.{
  Handled, handled, rejected, crashed, System, attempted, concluded, dispatch_inbox_event,
}
use reminder.Inbox.Rows.{dispatch-row, dispatch_idle}

module _ {Payload Event W : Type 0} (validate : Payload → Option Event)
    (handle : Event → W → Handled × W) where
  -- The event `i` dispatched at each time of the list.
  abbrev pub dispatches : List ℕ → String → System Payload W → System Payload W
  dispatches [] i s = s
  dispatches (now ∷ times) i s =
      dispatches times i (dispatch_inbox_event validate handle true now i s).1

  closed_idle :
      (times : List ℕ) (i : String) (s : System Payload W) (row : InboxEvent Payload)
      → get_event i s.inbox ≡ some row
      → row.status ≢ pending
      → dispatches times i s ≡ s
  closed_idle [] i s row found closed = refl
  closed_idle (now ∷ times) i s row found closed =
      let here : (dispatch_inbox_event validate handle true now i s).1 ≡ s =
        dispatch_idle validate handle true now i s
          (inl (λ r e waits. absurd (closed (cc (found, e, waits))))) in
      ap (dispatches times i) here ∙ closed_idle times i s row found closed

  -- A pending event whose handler returns, or refuses it for good, is handled once: the dispatches
  -- that follow, however many, change neither the inbox nor the world.
  pub dispatch_once :
      (now : ℕ) (times : List ℕ) (i : String) (s : System Payload W) (row : InboxEvent Payload)
      (event : Event)
      → get_event i s.inbox ≡ some row
      → row.status ≡ pending
      → validate row.payload ≡ some event
      → ((type_name : String) → (handle event s.world).0 ≢ crashed type_name)
      → dispatches (now ∷ times) i s ≡ (dispatch_inbox_event validate handle true now i s).1
  dispatch_once now times i s row event found waits valid ends =
      let r = (handle event s.world).0 in
      closed_idle times i (dispatch_inbox_event validate handle true now i s).1
        (concluded now r (attempted row))
        (cc ((dispatch-row validate handle now i i s row event found waits valid).1, eq_refl i))
        (closed r ends)
    where
      closed :
          (r : Handled)
          → ((type_name : String) → r ≢ crashed type_name)
          → (concluded now r (attempted row)).status ≢ pending
      closed handled ne = λ e. cc
      closed (rejected text) ne = λ e. cc
      closed (crashed type_name) ne = absurd (ne type_name refl)

  -- While its handler crashes in every world, a pending event stays pending, with one attempt more
  -- for each dispatch: it is never given up, and never marked as done.
  pub crashes_stay_pending :
      (times : List ℕ) (i : String) (s : System Payload W) (row : InboxEvent Payload)
      (event : Event)
      → get_event i s.inbox ≡ some row
      → row.status ≡ pending
      → validate row.payload ≡ some event
      → ((world : W) → (type_name : String) × ((handle event world).0 ≡ crashed type_name))
      → (final : InboxEvent Payload) × (get_event i (dispatches times i s).inbox ≡ some final)
        × (final.status ≡ pending)
        × (final.attempt_count ≡ row.attempt_count + length times)
  crashes_stay_pending [] i s row event found waits valid down = (row, found, waits, omega arith)
  crashes_stay_pending (now ∷ times) i s row event found waits valid down =
      let (type_name, e) = down s.world in
      let next = concluded now (crashed type_name) (attempted row) in
      let rest =
        crashes_stay_pending times i (dispatch_inbox_event validate handle true now i s).1 next
          event
          (cc
            ((dispatch-row validate handle now i i s row event found waits valid).1, eq_refl i, e))
          waits valid down in
      (rest.0, rest.1, rest.2, omega (arith, rest.3))
