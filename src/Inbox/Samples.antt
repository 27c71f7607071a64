-- ===== src/Inbox/Samples.antt =====
-- A small inbox, and the theorems at it. A payload of 0 is not an envelope, and the world is the
-- number of calls that still fail.
use reminder.Prelude.{ℕ, zero, suc, ◌≡◌, refl, true, Option, none, some, [], ◌∷◌, find_row}
use reminder.Inbox.Table.{InboxEvent, get_event, new_event}
use reminder.Inbox.Worker.{Handled, handled, crashed, System, dispatch_inbox_event}
use reminder.Inbox.Outcomes.{dispatches, dispatch_once}

abbrev read_envelope : ℕ → Option ℕ
read_envelope zero = none
read_envelope (suc n) = some n

abbrev flaky : ℕ → ℕ → Handled × ℕ
flaky event zero = (handled, zero)
flaky event (suc n) = (crashed "OperationalError", n)

abbrev always_down : ℕ → ℕ → Handled × ℕ
always_down event world = (crashed "OperationalError", suc world)

abbrev stored : InboxEvent ℕ
stored = new_event 10 "e1" 4

abbrev start : System ℕ ℕ
start = record { inbox = stored ∷ []; world = 0 }

stored_found : get_event "e1" start.inbox ≡ some stored
unfolding get_event find_row
stored_found = refl

dispatch_once_example :
    dispatches read_envelope flaky (50 ∷ 60 ∷ 70 ∷ []) "e1" start
    ≡ (dispatch_inbox_event read_envelope flaky true 50 "e1" start).1
dispatch_once_example =
    dispatch_once read_envelope flaky 50 (60 ∷ 70 ∷ []) "e1" start stored 3 stored_found refl refl
      (λ type_name e. cc)
