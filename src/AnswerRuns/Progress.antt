-- ===== src/AnswerRuns/Progress.antt =====
-- The course of a run that succeeds, and the creation that a client repeats.
use reminder.Prelude.{
  distinct, ℕ, String, ◌≡◌, refl, ap, inl, inr, Bool, true, Option, none, some, List, [], ◌∷◌, ◌++◌,
  eq_refl, arith, Option-cases, write_row,
}
use reminder.AnswerRuns.Record.{
  same_phase, duration, set_duration, ℤ, running, completed, RunPhase, validate, retrieve, generate,
  citations, complete, Columns, AnswerRun,
}
use reminder.AnswerRuns.Repository.{
  ok, GeneratedAnswer, Call, begin_phase, record_retrieval, record_generation, complete_run,
  call_row, when_running_in,
}
use reminder.AnswerRuns.Table.{get_row, find_request, create, call_run}
use reminder.AnswerRuns.Finality.{Op, call_one, apply_all, run_id-call_row, get-write}

module _ {C : Columns} where
  -- A method that does not raise leaves its row where it stood.
  get-call :
      (now : ℕ) (i : String) (call : Call C) (rows : List (AnswerRun C)) (row row' : AnswerRun C)
      → get_row i rows ≡ some row
      → call_row now call row ≡ ok row'
      → get_row i (call_run now i call rows).1 ≡ some row'
  unfolding call_run
  get-call now i call rows row row' found e =
      let written = get-write i i row row' rows found (run_id-call_row now call row row' e) in
      let shape : (call_run now i call rows).1 ≡ write_row (λ r. r.run_id) i (λ _. row') rows =
        rw (call_run, found, e) refl in
      cc (written, shape, eq_refl i)

  -- The request that a create inserted is found again.
  found-create :
      (row : AnswerRun C) (rows : List (AnswerRun C))
      → find_request row.owner_id row.request_id rows ≡ none
      → find_request row.owner_id row.request_id (rows ++ (row ∷ [])) ≡ some row
  unfolding find_request
  found-create row [] absent = ground (arith, eq_refl row.request_id)
  found-create row (r ∷ rows) absent = ground (arith, absent, found-create row rows)

  create_new :
      (row : AnswerRun C) (rows : List (AnswerRun C))
      → find_request row.owner_id row.request_id rows ≡ none
      → create row rows ≡ (row, rows ++ (row ∷ []))
  unfolding create
  create_new row rows e = rw (create, e) refl

  create_old :
      (row : AnswerRun C) (rows : List (AnswerRun C)) {existing : AnswerRun C}
      → find_request row.owner_id row.request_id rows ≡ some existing
      → create row rows ≡ (existing, rows)
  unfolding create
  create_old row rows e = rw (create, e) refl

  -- Creating a run twice for the same owner and request returns, the second time, the run of the
  -- first time, and leaves the table as the first creation left it.
  create_run_again :
      (row row' : AnswerRun C) (rows : List (AnswerRun C))
      → row'.owner_id ≡ row.owner_id
      → row'.request_id ≡ row.request_id
      → create row' (create row rows).1 ≡ create row rows
  create_run_again row row' rows eo er =
      elim (Option-cases (find_request row.owner_id row.request_id rows)) [
        | inl e ↦
            let there : find_request row'.owner_id row'.request_id (rows ++ (row ∷ [])) ≡ some row =
              cc (found-create row rows e, eo, er) in
            cc (create_new row rows e, create_old row' (rows ++ (row ∷ [])) there)
        | inr (existing, e) ↦
            let there : find_request row'.owner_id row'.request_id rows ≡ some existing =
              cc (e, eo, er) in
            cc (create_old row rows e, create_old row' rows there)
      ]

  goes_through :
      (expected : RunPhase) (row row' : AnswerRun C)
      → row.status ≡ running
      → same_phase row.current_phase expected ≡ true
      → when_running_in expected row row' ≡ ok row'
  goes_through expected row row' run phase = ground (arith, run, phase)

  -- The run stands in the table, is running in the phase, and has the error code `e`.
  abbrev InPhase : String → Option String → RunPhase → List (AnswerRun C) → Type 0
  InPhase i e p rows =
      (row : AnswerRun C) × (get_row i rows ≡ some row)
      × (row.status ≡ running)
      × (same_phase row.current_phase p ≡ true)
      × (row.error_code ≡ e)

  InPhase-begin :
      (t : ℕ) (i : String) (e : Option String) (p q : RunPhase) (rows : List (AnswerRun C))
      → same_phase q q ≡ true
      → InPhase i e p rows
      → InPhase i e q (call_run t i (begin_phase p q) rows).1
  unfolding call_row
  InPhase-begin t i e p q rows is_q (row, found, run, at, er) =
      let row' = record row { current_phase = q } in
      (
        row',
        get-call t i (begin_phase p q) rows row row' found (goes_through p row row' run at),
        run,
        is_q,
        er,
      )

  InPhase-retrieval :
      (t : ℕ) (i : String) (e : Option String) (d : ℤ) (sources : List String) (n : ℕ)
      (x : C.Execution) (rows : List (AnswerRun C))
      → InPhase i e retrieve rows
      → InPhase i e retrieve (call_run t i (record_retrieval d sources n x) rows).1
  unfolding call_row
  InPhase-retrieval t i e d sources n x rows (row, found, run, at, er) =
      let row' = record row {
        phase_durations_ms = set_duration retrieve (duration d) row.phase_durations_ms;
        source_ids = distinct [] sources;
        expansion_count = n;
        execution = x;
        retrieval_completed_at = some t;
      } in
      (
        row',
        get-call t i (record_retrieval d sources n x) rows row row' found
            (goes_through retrieve row row' run at),
        run,
        at,
        er,
      )

  InPhase-generation :
      (t : ℕ) (i : String) (e : Option String) (d : ℤ) (answer : GeneratedAnswer C)
      (rows : List (AnswerRun C))
      → InPhase i e generate rows
      → InPhase i e generate (call_run t i (record_generation d answer) rows).1
  unfolding call_row
  InPhase-generation t i e d answer rows (row, found, run, at, er) =
      let row' = record row {
        phase_durations_ms = set_duration generate (duration d) row.phase_durations_ms;
        confidence = some answer.confidence;
        uncertainty = answer.uncertainty;
        insufficient_evidence = some answer.insufficient_evidence;
        usage = some answer.usage;
        source_ids = distinct [] (row.source_ids ++ answer.tool_source_ids);
        execution = answer.execution;
        generation_completed_at = some t;
      } in
      (
        row',
        get-call t i (record_generation d answer) rows row row' found
            (goes_through generate row row' run at),
        run,
        at,
        er,
      )

  -- The calls of one run in their order, each with its instant.
  abbrev pub successful_calls :
      ℕ
      → ℕ
      → String
      → (retrieved generated cited : ℤ) → List String
      → ℕ
      → C.Execution
      → GeneratedAnswer C
      → C.Confidence
      → Option String
      → Bool
      → C.Response
      → List (Op C)
  successful_calls t n i retrieved generated cited sources expansion x answer c u insufficient
        response =
      call_one t i (begin_phase validate retrieve)
      ∷ (call_one t i (record_retrieval retrieved sources expansion x)
          ∷ (call_one t i (begin_phase retrieve generate)
              ∷ (call_one t i (record_generation generated answer)
                  ∷ (call_one t i (begin_phase generate citations)
                      ∷ (call_one n i (complete_run cited c u insufficient response) ∷ [])))))

  -- From the row that a create inserted, the calls of a successful answer all go through: the run
  -- ends completed in its last phase, with the response, and without an error if it had none.
  pub successful_calls-complete :
      (t n : ℕ) (i : String) (retrieved generated cited : ℤ) (sources : List String) (expansion : ℕ)
      (x : C.Execution) (answer : GeneratedAnswer C) (c : C.Confidence) (u : Option String)
      (insufficient : Bool) (response : C.Response) (rows : List (AnswerRun C)) (row : AnswerRun C)
      → get_row i rows ≡ some row
      → row.status ≡ running
      → row.current_phase ≡ validate
      → (final : AnswerRun C) × (get_row i (
            apply_all
              (successful_calls t n i retrieved generated cited sources expansion x answer c u
                insufficient response)
              rows)
          ≡ some final)
        × (final.status ≡ completed)
        × (final.current_phase ≡ complete)
        × (final.response_json ≡ some response)
        × (final.completed_at ≡ some n)
        × (final.error_code ≡ row.error_code)
  unfolding call_row
  successful_calls-complete t n i dr dg dc sources expansion x answer c u insufficient response rows
        row found run phase =
      let opened =
        InPhase-begin t i row.error_code validate retrieve rows refl
          (row, found, run, ap (λ p. same_phase p validate) phase, refl) in
      let fetched = InPhase-retrieval t i row.error_code dr sources expansion x _ opened in
      let moved = InPhase-begin t i row.error_code retrieve generate _ refl fetched in
      let answered = InPhase-generation t i row.error_code dg answer _ moved in
      let (last, there, open_last, at, er) =
        InPhase-begin t i row.error_code generate citations _ refl answered in
      let final = record last {
        phase_durations_ms = set_duration citations (duration dc) last.phase_durations_ms;
        confidence = some c;
        uncertainty = u;
        insufficient_evidence = some insufficient;
        response_json = some response;
        status = completed;
        current_phase = complete;
        citations_completed_at = some n;
        completed_at = some n;
      } in
      (
        final,
        get-call n i (complete_run dc c u insufficient response) _ last final there
            (goes_through citations last final open_last at),
        refl,
        refl,
        refl,
        refl,
        er,
      )
