-- ===== src/AnswerRuns/Record.antt =====
-- `AnswerRun` (app/mneme/memoria/server/models/answer_run.py). `Request` is the type of the columns
-- that only `create` writes, `Execution` of the four that describe how roles were run
-- (execution_mode, role_attempts, budget_usage, degraded), `Usage` of those that only
-- `record_generation` fills from the model's answer, `Confidence` of a decimal number and `Response`
-- of the stored JSON.
pub use reminder.Prelude.{ℤ, pos, negsuc}
use reminder.Prelude.{ℕ, String, Bool, true, false, Option, List, [], ◌∷◌, if◌then◌else◌}

pub data Status : Type 0 where
  running completed failed : Status

pub data RunPhase : Type 0 where
  validate retrieve generate citations complete : RunPhase

abbrev pub same_phase : RunPhase → RunPhase → Bool
same_phase validate validate = true
same_phase retrieve retrieve = true
same_phase generate generate = true
same_phase citations citations = true
same_phase complete complete = true
same_phase _ _ = false

-- `_duration`: max(0, value)
abbrev pub duration : ℤ → ℕ
duration (pos n) = n
duration (negsuc n) = 0

-- {**durations, phase: value}
unfoldable pub set_duration : RunPhase → ℕ → List (RunPhase × ℕ) → List (RunPhase × ℕ)
set_duration phase value [] = (phase, value) ∷ []
set_duration phase value ((p, v) ∷ rest) =
    let below = set_duration phase value rest in
    if same_phase p phase then (p, value) ∷ rest else (p, v) ∷ below

-- The columns of one run. `Columns` names the types of its opaque values.
pub record Columns : Type 1 where
  pub Request : Type 0
  pub Execution : Type 0
  pub Usage : Type 0
  pub Confidence : Type 0
  pub Response : Type 0

pub record AnswerRun (C : Columns) : Type 0 where
  pub run_id : String
  pub owner_id : ℕ
  pub request_id : String
  pub request : C.Request
  pub status : Status
  pub current_phase : RunPhase
  pub phase_durations_ms : List (RunPhase × ℕ)
  pub source_ids : List String
  pub expansion_count : ℕ
  pub execution : C.Execution
  pub usage : Option C.Usage
  pub confidence : Option C.Confidence
  pub uncertainty : Option String
  pub insufficient_evidence : Option Bool
  pub error_code : Option String
  pub response_json : Option C.Response
  pub created_at : ℕ
  pub started_at : ℕ
  pub retrieval_completed_at : Option ℕ
  pub generation_completed_at : Option ℕ
  pub citations_completed_at : Option ℕ
  pub completed_at : Option ℕ
  pub failed_at : Option ℕ
