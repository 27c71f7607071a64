-- ===== src/Outbox/Alone.antt =====
-- A delivery of one worker alone, as transactions of Outbox/Overlap.antt.
use reminder.Prelude.{ℕ, List, [], ◌∷◌}
use reminder.Outbox.Event.{OutboxEvent, Settings}
use reminder.Outbox.Worker.{Enqueued, Handler}
use reminder.Outbox.Overlap.{Action, load, mark, finish, enqueue}

module _ {P : Type 0} (settings : Settings) where
  -- The requests as transactions, and then others.
  abbrev pub enqueues : (now : ℕ) → Enqueued P → List (Action P) → List (Action P)
  enqueues now [] rest = rest
  enqueues now ((new_id, request) ∷ requests) rest =
      enqueue new_id now request ∷ enqueues now requests rest

  module _ {W : Type 0} (handle : Handler P W) where
    -- The transactions of a delivery: its snapshot, its mark, what its handler enqueues, its end.
    abbrev pub delivery : (now : ℕ) → OutboxEvent P → W → List (Action P)
    delivery now event world =
        load 0 event.id
        ∷ mark 0 now
        ∷ enqueues now (handle event world).1 (finish 0 now (handle event world).0 ∷ [])
