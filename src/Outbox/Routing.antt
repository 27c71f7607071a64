-- ===== src/Outbox/Routing.antt =====
-- Which handler an event reaches, and what a failed delivery records.
use mathlib.Core.Option
use reminder.Prelude.{
  ◌+◌, ◌≤◌, String, ◌≡◌, refl, ◌↔◌, ◌⊎◌, false, eq_iff, arith, chars, take_chars, chars-take_chars,
}
use reminder.Outbox.Event.{
  failed, dead_letter, OutboxEvent, Settings, Failure, max_memory_agent_error_length,
  bounded_error_detail,
}
use reminder.Outbox.Worker.{failure_status}

module _ {P : Type 0} (settings : Settings) (event : OutboxEvent P) (exc : Failure) where
  -- A failed delivery ends as a dead letter exactly when this was the last attempt or the event goes
  -- to the memory agent and the exception is not its retryable one; otherwise it ends as failed.
  pub failure_status_iff :
      ((failure_status settings event exc ≡ dead_letter) ↔ (
        (event.max_attempts ≤ event.attempt_count + 1)
        ⊎ ((event.target_backend ≡ settings.memory_agent_outbox_target)
            × (exc.is_memory_agent_retryable ≡ false))))
      × ((failure_status settings event exc ≡ failed)
          ⊎ (failure_status settings event exc ≡ dead_letter))
  unfolding failure_status
  failure_status_iff =
      ground (arith, eq_iff event.target_backend settings.memory_agent_outbox_target)

  -- What is stored of a memory agent failure is at most 2000 characters long, and is the message of
  -- the exception, cut there, or a fixed text: never `str(exc)`.
  pub memory_agent_error_bounded :
      event.target_backend ≡ settings.memory_agent_outbox_target
      → (chars (bounded_error_detail settings event exc) ≤ max_memory_agent_error_length)
        × (bounded_error_detail settings event exc
            ≡ take_chars max_memory_agent_error_length
                (Option.get_or exc.business_message "memory agent delivery failed"))
  unfolding bounded_error_detail
  memory_agent_error_bounded h =
      let detail : String = Option.get_or exc.business_message "memory agent delivery failed" in
      rw ((eq_iff event.target_backend settings.memory_agent_outbox_target).1 h)
        (omega (arith, chars-take_chars max_memory_agent_error_length detail), refl)
