-- ===== src/RunStore/Record.antt =====
-- app/mneme/memoria/run_models.py. The fields that no function modelled here reads or writes
-- (the question, its mode, the trigger, the trace, the last event) are one value of a type `B`.
use reminder.Prelude.{ℕ, String, Bool, true, false, Option, none}

pub data AgentRunStatus : Type 0 where
  queued running completed failed aborting aborted : AgentRunStatus

-- Membership in TERMINAL_AGENT_RUN_STATUSES.
unfoldable pub is_terminal : AgentRunStatus → Bool
is_terminal completed = true
is_terminal failed = true
is_terminal aborted = true
is_terminal _ = false

pub record AgentRunRecord (B : Type 0) : Type 0 where
  pub run_id : String
  pub session_id : String
  pub user_id : ℕ
  pub client_request_id : String
  pub body : B
  pub status : AgentRunStatus
  pub attempt_count : ℕ
  pub max_attempts : ℕ
  pub created_at : ℕ
  pub started_at : Option ℕ
  pub completed_at : Option ℕ
  pub error : Option String

-- `AgentRunRecord.create`
unfoldable pub create :
    {B : Type 0}
    → (run_id session_id : String) → (user_id : ℕ) → (client_request_id : String) → B
    → (max_attempts now : ℕ) → AgentRunRecord B
create run_id session_id user_id client_request_id body max_attempts now = record {
  run_id = run_id;
  session_id = session_id;
  user_id = user_id;
  client_request_id = client_request_id;
  body = body;
  status = queued;
  attempt_count = 0;
  max_attempts = max_attempts;
  created_at = now;
  started_at = none;
  completed_at = none;
  error = none;
}
