-- ===== src/AnswerRuns/Table.antt =====
-- The table of the runs, and each call of the repository on it.
use reminder.Prelude.{
  ℕ, String, Bool, ◌&&◌, Option, none, some, List, [], ◌∷◌, ◌++◌, map, ltb, eqb, ◌==◌,
  if◌then◌else◌, some_of, find_row, write_row, keep, take, length, sort_by,
}
use reminder.AnswerRuns.Record.{ℤ, running, validate, duration, Columns, AnswerRun}
use reminder.AnswerRuns.Repository.{
  Result, ok, invalid_run_transition, lookup_error, is_running, Call, call_row, stale_row,
}

module _ {C : Columns} where
  unfoldable pub get_row : String → List (AnswerRun C) → Option (AnswerRun C)
  unfolding find_row
  get_row = find_row (λ row. row.run_id)

  -- The inserted row: the columns that `values` leaves out take their defaults.
  abbrev pub new_run :
      (now : ℕ)
      → (run_id : String) → (owner_id : ℕ) → (request_id : String) → C.Request
      → C.Execution
      → (validation_duration_ms : ℤ) → AnswerRun C
  new_run now run_id owner_id request_id request execution duration_ms = record {
    run_id = run_id;
    owner_id = owner_id;
    request_id = request_id;
    request = request;
    status = running;
    current_phase = validate;
    phase_durations_ms = (validate, duration duration_ms) ∷ [];
    source_ids = [];
    expansion_count = 0;
    execution = execution;
    usage = none;
    confidence = none;
    uncertainty = none;
    insufficient_evidence = none;
    error_code = none;
    response_json = none;
    created_at = now;
    started_at = now;
    retrieval_completed_at = none;
    generation_completed_at = none;
    citations_completed_at = none;
    completed_at = none;
    failed_at = none;
  }

  abbrev pub is_request : (owner_id : ℕ) → (request_id : String) → AnswerRun C → Bool
  is_request owner_id request_id row = eqb row.owner_id owner_id && (row.request_id == request_id)

  unfoldable pub find_request :
      (owner_id : ℕ) → (request_id : String) → List (AnswerRun C) → Option (AnswerRun C)
  find_request owner_id request_id [] = none
  find_request owner_id request_id (row ∷ rows) =
      let rest = find_request owner_id request_id rows in
      if is_request owner_id request_id row then some row else rest

  -- `create`: INSERT ... ON CONFLICT (owner_id, request_id) DO NOTHING, or the row in the way. The
  -- run id is fresh.
  unfoldable pub create : AnswerRun C → List (AnswerRun C) → AnswerRun C × List (AnswerRun C)
  unfolding find_request
  create row rows = elim (find_request row.owner_id row.request_id rows) [
    | none ↦ (row, rows ++ (row ∷ []))
    | some existing ↦ (existing, rows)
  ]

  -- What a transaction writes: nothing where it raised.
  abbrev pub after_call :
      String → Result (AnswerRun C) → List (AnswerRun C) → Result (Unit {0}) × List (AnswerRun C)
  after_call run_id (ok row) rows = (ok tt, write_row (λ r. r.run_id) run_id (λ _. row) rows)
  after_call run_id invalid_run_transition rows = (invalid_run_transition, rows)
  after_call run_id lookup_error rows = (lookup_error, rows)

  abbrev pub on_row : (now : ℕ) → Call C → Option (AnswerRun C) → Result (AnswerRun C)
  on_row now call none = lookup_error
  on_row now call (some row) = call_row now call row

  unfoldable pub call_run :
      (now : ℕ) → String → Call C → List (AnswerRun C) → Result (Unit {0}) × List (AnswerRun C)
  unfolding write_row
  call_run now run_id call rows = after_call run_id (on_row now call (get_row run_id rows)) rows

  abbrev pub is_stale : (stale_before : ℕ) → AnswerRun C → Bool
  is_stale stale_before row = is_running row.status && ltb row.started_at stale_before

  -- The selected rows, by their ids; a row that another transaction holds is skipped by the database.
  abbrev pub stale_ids : (stale_before limit : ℕ) → List (AnswerRun C) → List String
  stale_ids stale_before limit rows =
      map (λ row. row.run_id)
        (take limit (sort_by (λ row. row.started_at) (keep (is_stale stale_before) rows)))

  abbrev pub fail_if_stale : (now stale_before : ℕ) → List String → AnswerRun C → AnswerRun C
  fail_if_stale now stale_before ids row =
      if is_stale stale_before row && some_of (λ i. i == row.run_id) ids
      then stale_row now row
      else row

  unfoldable pub fail_stale :
      (now stale_before limit : ℕ) → List (AnswerRun C) → ℕ × List (AnswerRun C)
  unfolding sort_by
  fail_stale now stale_before limit rows =
      let ids = stale_ids stale_before limit rows in
      (length ids, map (fail_if_stale now stale_before ids) rows)
