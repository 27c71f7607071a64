-- ===== src/Outbox/Rows.antt =====
-- What reading a row gives behind the writes of Outbox/Table.antt and Outbox/Worker.antt.
use mathlib.Core.Option
use reminder.Prelude.{
  String, ◌≡◌, some, List, ◌==◌, if◌then◌else◌, find_row-write_row, key-find_row,
}
use reminder.Outbox.Event.{OutboxEvent}
use reminder.Outbox.Table.{
  get_outbox_event_by_id, StatusUpdate, assign_status, update_outbox_event_status,
}

module _ {P : Type 0} where
  pub get-update :
      (i j : String) (u : StatusUpdate) (outbox : List (OutboxEvent P))
      → get_outbox_event_by_id j (update_outbox_event_status i u outbox) ≡ (
          if i == j
          then Option.map (assign_status u) (get_outbox_event_by_id j outbox)
          else get_outbox_event_by_id j outbox)
  unfolding get_outbox_event_by_id update_outbox_event_status
  get-update i j u outbox =
      find_row-write_row (λ event. event.id) i j (assign_status u) outbox (λ event h. h)

  pub id-get :
      (i : String) (outbox : List (OutboxEvent P)) {event : OutboxEvent P}
      → get_outbox_event_by_id i outbox ≡ some event
      → event.id ≡ i
  unfolding get_outbox_event_by_id
  id-get i outbox e = key-find_row (λ event. event.id) i outbox e
