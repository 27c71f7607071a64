-- ===== src/Inbox/Rows.antt =====
-- What one dispatch of an inbox event writes.
use mathlib.Core.Option
use reminder.Prelude.{
  ℕ, String, ◌≡◌, refl, subst, ◌∙◌, ◌⊎◌, inl, inr, true, false, Bool, Option, none, some, List,
  ◌==◌, if◌then◌else◌, eq_iff, eq_refl, arith, Bool-cases, Option-cases, find_row-write_row,
  find_row-append,
}
use reminder.Inbox.Table.{pending, InboxEvent, get_event, set_event, new_event, accept_event}
use reminder.Inbox.Worker.{
  Handled, handled, rejected, crashed, System, attempted, when_pending, concluded, report,
  run_handler, dispatch_inbox_event,
}

module _ {Payload : Type 0} where
  pub get-set :
      (i j : String) (f : InboxEvent Payload → InboxEvent Payload)
      (rows : List (InboxEvent Payload))
      → ((row : InboxEvent Payload) → (f row).event_id ≡ row.event_id)
      → get_event j (set_event i f rows)
        ≡ (if i == j then Option.map f (get_event j rows) else get_event j rows)
  unfolding get_event set_event
  get-set i j f rows same =
      find_row-write_row (λ (row : InboxEvent Payload). row.event_id) i j f rows
        (λ row h. same row ∙ h)

  id-concluded :
      (now : ℕ) (r : Handled) (row : InboxEvent Payload)
      → (when_pending (concluded now r) row).event_id ≡ row.event_id
  id-concluded now handled row = ground arith
  id-concluded now (rejected text) row = ground arith
  id-concluded now (crashed type_name) row = ground arith

  -- An event that is accepted again, at any time and with any payload, leaves the inbox as it is,
  -- and the caller is given the row of the first time.
  pub accept_again :
      (now later : ℕ) (i : String) (payload other : Payload) (rows : List (InboxEvent Payload))
      → accept_event later i other (accept_event now i payload rows).1
        ≡ (((accept_event now i payload rows).0.0, false), (accept_event now i payload rows).1)
  unfolding accept_event get_event
  accept_again now later i payload other rows = elim (Option-cases (get_event i rows)) [
    | inl e ↦ ground (
      arith,
      e,
      eq_refl i,
      find_row-append (λ (row : InboxEvent Payload). row.event_id) i rows (new_event now i payload)
          e,
    )
    | inr (row, e) ↦ ground (arith, e)
  ]

module _ {Payload Event W : Type 0} (validate : Payload → Option Event)
    (handle : Event → W → Handled × W) where
  dispatch_runs :
      (now : ℕ) (i : String) (s : System Payload W) (row : InboxEvent Payload) (event : Event)
      → get_event i s.inbox ≡ some row
      → row.status ≡ pending
      → validate row.payload ≡ some event
      → dispatch_inbox_event validate handle true now i s
        ≡ run_handler validate handle now i event
            (record s { inbox = set_event i attempted s.inbox })
  unfolding dispatch_inbox_event
  dispatch_runs now i s row event found waits valid = ground (arith, found, waits, valid)

  -- The rows behind a dispatch of a pending event whose payload is an envelope: the event's own row
  -- has one attempt more and the handler's outcome, and no other row is touched; the report is the
  -- outcome's.
  pub dispatch-row :
      (now : ℕ) (i j : String) (s : System Payload W) (row : InboxEvent Payload) (event : Event)
      → get_event i s.inbox ≡ some row
      → row.status ≡ pending
      → validate row.payload ≡ some event
      → ((dispatch_inbox_event validate handle true now i s).0 ≡ report (handle event s.world).0)
        × (get_event j (dispatch_inbox_event validate handle true now i s).1.inbox ≡ (
            if i == j
            then some (concluded now (handle event s.world).0 (attempted row))
            else get_event j s.inbox))
  dispatch-row now i j s row event found waits valid =
      let r = (handle event s.world).0 in
      let first = get-set i j attempted s.inbox (λ row. refl) in
      let second =
        get-set i j (when_pending (concluded now r)) (set_event i attempted s.inbox)
          (id-concluded now r) in
      rw (dispatch_runs now i s row event found waits valid) (
        refl,
        elim (Bool-cases (i == j)) [
          | inl same ↦
              let here : get_event j s.inbox ≡ some row =
                subst (λ k. get_event k s.inbox ≡ some row) ((eq_iff i j).0 same) found in
              cc (first, second, same, here, waits)
          | inr other ↦ cc (first, second, other)
        ],
      )

  -- A dispatch that is refused the event's lock, or finds no event or one that is not pending, or an
  -- envelope that does not validate, changes nothing.
  pub dispatch_idle :
      (acquired : Bool) (now : ℕ) (i : String) (s : System Payload W)
      → ((row : InboxEvent Payload)
          → get_event i s.inbox ≡ some row
          → row.status ≡ pending
          → validate row.payload ≡ none)
        ⊎ (acquired ≡ false)
      → (dispatch_inbox_event validate handle acquired now i s).1 ≡ s
  unfolding dispatch_inbox_event
  dispatch_idle acquired now i s (inr e) = ground (arith, e)
  dispatch_idle false now i s h = refl
  dispatch_idle true now i s (inl h) = elim (Option-cases (get_event i s.inbox)) [
    | inl e ↦ ground (arith, e)
    | inr (row, e) ↦ ground (arith, e, h row e)
  ]
