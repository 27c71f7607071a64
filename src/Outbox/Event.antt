-- ===== src/Outbox/Event.antt =====
-- app/mneme/models/outbox_event.py, and the constants and pure helpers of
-- app/mneme/domains/tasks/outbox.py. Instants and delays are numbers of seconds. A payload, a dict
-- that only the handlers read, is of any type `P`.
use mathlib.Core.Option
use reminder.Prelude.{
  ℕ, ◌+◌, ◌*◌, max, String, Bool, Option, leb, ◌==◌, if◌then◌else◌, take_chars, with_colon,
}

pub data Status : Type 0 where
  pending running succeeded failed dead_letter : Status

pub record OutboxEvent (P : Type 0) : Type 0 where
  pub id : String
  pub event_type : String
  pub aggregate_type : String
  pub aggregate_id : String
  pub target_backend : String
  pub payload : P
  pub idempotency_key : String
  pub status : Status
  pub attempt_count : ℕ
  pub max_attempts : ℕ
  pub created_at : ℕ
  pub next_attempt_at : Option ℕ
  pub locked_at : Option ℕ
  pub processed_at : Option ℕ
  pub last_error : Option String

-- What the module reads of app/mneme/conf/config.py.
pub record Settings : Type 0 where
  pub event_max_attempts : ℕ
  pub retry_base_delay_seconds : ℕ
  pub memory_agent_outbox_target : String

-- An exception as the worker looks at it: its class, the `message` of a BusinessException, `str(exc)`.
pub record Failure : Type 0 where
  pub is_memory_agent_retryable : Bool
  pub business_message : Option String
  pub text : String

abbrev pub max_memory_agent_error_length : ℕ
max_memory_agent_error_length = 2000

unfoldable pub build_outbox_idempotency_key : String → String → String → String → String
build_outbox_idempotency_key event_type aggregate_type aggregate_id operation_id =
    with_colon event_type (with_colon aggregate_type (with_colon aggregate_id operation_id))

unfoldable pub calculate_next_attempt_at : Settings → (now attempt_count : ℕ) → ℕ
calculate_next_attempt_at settings now attempt_count =
    now + settings.retry_base_delay_seconds * max 1 attempt_count

unfoldable pub should_dead_letter : (attempt_count max_attempts : ℕ) → Bool
should_dead_letter attempt_count max_attempts = leb max_attempts attempt_count

module _ {P : Type 0} where
  unfoldable pub bounded_error_detail : Settings → OutboxEvent P → Failure → String
  bounded_error_detail settings event exc =
      if event.target_backend == settings.memory_agent_outbox_target
      then take_chars max_memory_agent_error_length
          (Option.get_or exc.business_message "memory agent delivery failed")
      else exc.text
