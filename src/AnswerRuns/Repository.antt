-- ===== src/AnswerRuns/Repository.antt =====
-- The methods of `AnswerRunRepository`, on the row that `_locked` found.
use reminder.Prelude.{
  distinct, ℕ, String, Bool, true, false, ◌&&◌, Option, some, List, [], ◌++◌, if◌then◌else◌,
}
use reminder.AnswerRuns.Record.{
  ℤ, Status, running, completed, failed, RunPhase, retrieve, generate, citations, complete,
  same_phase, duration, set_duration, Columns, AnswerRun,
}

-- `lookup_error` is the LookupError of `_locked`.
pub data Result {ℓ} (A : Type ℓ) : Type ℓ where
  ok : A → Result A
  invalid_run_transition : Result A
  lookup_error : Result A

abbrev pub is_running : Status → Bool
is_running running = true
is_running _ = false

-- What `GeneratedAnswer` gives to `record_generation`.
pub record GeneratedAnswer (C : Columns) : Type 0 where
  pub confidence : C.Confidence
  pub uncertainty : Option String
  pub insufficient_evidence : Bool
  pub usage : C.Usage
  pub tool_source_ids : List String
  pub execution : C.Execution

-- A method call, with its arguments behind the run's id.
pub data Call (C : Columns) : Type 0 where
  begin_phase : (previous phase : RunPhase) → Call C
  record_retrieval :
      (duration_ms : ℤ) → (source_ids : List String) → (expansion_count : ℕ) → C.Execution → Call C
  record_generation : (duration_ms : ℤ) → GeneratedAnswer C → Call C
  complete_run :
      (citation_duration_ms : ℤ)
      → C.Confidence
      → (uncertainty : Option String) → (insufficient_evidence : Bool) → C.Response
      → Call C
  fail : (phase : RunPhase) → (duration_ms : ℤ) → (error_code : String) → Call C

module _ {C : Columns} where
  -- `_require_running`, and then the assignments.
  abbrev pub when_running_in : RunPhase → AnswerRun C → AnswerRun C → Result (AnswerRun C)
  when_running_in expected row row' =
      if is_running row.status && same_phase row.current_phase expected
      then ok row'
      else invalid_run_transition

  -- Each method in one transaction: the row behind it, or the exception.
  unfoldable pub call_row : (now : ℕ) → Call C → AnswerRun C → Result (AnswerRun C)
  unfolding set_duration distinct
  call_row now (begin_phase previous phase) row =
      when_running_in previous row (record row { current_phase = phase })
  call_row now (record_retrieval duration_ms source_ids expansion_count execution) row =
      when_running_in retrieve row (record row {
        phase_durations_ms = set_duration retrieve (duration duration_ms) row.phase_durations_ms;
        source_ids = distinct [] source_ids;
        expansion_count = expansion_count;
        execution = execution;
        retrieval_completed_at = some now;
      })
  call_row now (record_generation duration_ms answer) row =
      when_running_in generate row (record row {
        phase_durations_ms = set_duration generate (duration duration_ms) row.phase_durations_ms;
        confidence = some answer.confidence;
        uncertainty = answer.uncertainty;
        insufficient_evidence = some answer.insufficient_evidence;
        usage = some answer.usage;
        source_ids = distinct [] (row.source_ids ++ answer.tool_source_ids);
        execution = answer.execution;
        generation_completed_at = some now;
      })
  call_row now (complete_run duration_ms confidence uncertainty insufficient response) row =
      when_running_in citations row (record row {
        phase_durations_ms = set_duration citations (duration duration_ms) row.phase_durations_ms;
        confidence = some confidence;
        uncertainty = uncertainty;
        insufficient_evidence = some insufficient;
        response_json = some response;
        status = completed;
        current_phase = complete;
        citations_completed_at = some now;
        completed_at = some now;
      })
  call_row now (fail phase duration_ms error_code) row =
      if is_running row.status
      then ok (record row {
        phase_durations_ms = set_duration phase (duration duration_ms) row.phase_durations_ms;
        current_phase = phase;
        status = failed;
        error_code = some error_code;
        failed_at = some now;
      })
      else ok row

  -- What `fail_stale` assigns to a selected row.
  abbrev pub stale_row : (now : ℕ) → AnswerRun C → AnswerRun C
  stale_row now row = record row {
    status = failed;
    error_code = some "AGENT_RUN_STALE";
    failed_at = some now;
  }
