-- ===== src/AnswerRuns/Lifecycle.antt =====
-- The life of one run: what every method keeps of its row, and the course of a run that succeeds.
use reminder.Prelude.{
  ℕ, String, ◌≡◌, ◌≢◌, refl, subst, ◌∙◌, true, false, none, some, arith, Bool-cases, inl, inr,
}
use reminder.AnswerRuns.Record.{
  ℤ, running, completed, failed, RunPhase, retrieve, generate, citations, complete, duration,
  set_duration, Columns, AnswerRun,
}
use reminder.AnswerRuns.Repository.{
  ok, is_running, Call, begin_phase, record_retrieval, record_generation, complete_run, fail,
  when_running_in, call_row,
}

-- A running run has no result, a completed one its response and no error, a failed one its error.
pub record IsSound {C : Columns} (row : AnswerRun C) : Type 0 where
  pub running_open :
      row.status ≡ running
      → (row.response_json ≡ none)
        × (row.error_code ≡ none)
        × (row.completed_at ≡ none)
        × (row.failed_at ≡ none)
  pub completed_closed :
      row.status ≡ completed
      → (row.current_phase ≡ complete)
        × (row.response_json ≢ none)
        × (row.completed_at ≢ none)
        × (row.error_code ≡ none)
        × (row.failed_at ≡ none)
  pub failed_closed :
      row.status ≡ failed
      → (row.error_code ≢ none) × (row.failed_at ≢ none) × (row.response_json ≡ none)

module _ {C : Columns} where
  -- Behind a guarded method: the row was running in the phase, and is the assigned one.
  running_in :
      (expected : RunPhase) (row row' : AnswerRun C) {result : AnswerRun C}
      → when_running_in expected row row' ≡ ok result
      → (row.status ≡ running) × (row' ≡ result)
  running_in expected row row' e = (ground (arith, e), ground (arith, e))

  failed_result :
      (phase : RunPhase) (d : ℤ) (code : String) (now : ℕ) (row row' : AnswerRun C)
      → is_running row.status ≡ true
      → call_row now (fail phase d code) row ≡ ok row'
      → record row {
        phase_durations_ms = set_duration phase (duration d) row.phase_durations_ms;
        current_phase = phase;
        status = failed;
        error_code = some code;
        failed_at = some now;
      }
        ≡ row'
  unfolding call_row
  failed_result phase d code now row row' run e = ground (arith, run, e)

  over_result :
      (phase : RunPhase) (d : ℤ) (code : String) (now : ℕ) (row row' : AnswerRun C)
      → is_running row.status ≡ false
      → call_row now (fail phase d code) row ≡ ok row'
      → row ≡ row'
  unfolding call_row
  over_result phase d code now row row' over e = ground (arith, over, e)

  -- A write that leaves the columns of the outcome alone.
  kept_running :
      (row row' : AnswerRun C)
      → IsSound row
      → row.status ≡ running
      → row'.status ≡ running
      → row'.response_json ≡ row.response_json
      → row'.error_code ≡ row.error_code
      → row'.completed_at ≡ row.completed_at
      → row'.failed_at ≡ row.failed_at
      → IsSound row'
  kept_running row row' s r r' er ee ec ef = record {
    running_open = λ e. (
      er ∙ (s.running_open r).0,
      ee ∙ (s.running_open r).1,
      ec ∙ (s.running_open r).2,
      ef ∙ (s.running_open r).3,
    );
    completed_closed = λ e. absurd (cc (r', e));
    failed_closed = λ e. absurd (cc (r', e));
  }

  completed-IsSound :
      (row row' : AnswerRun C) {response : C.Response} {now : ℕ}
      → IsSound row
      → row.status ≡ running
      → row'.status ≡ completed
      → row'.current_phase ≡ complete
      → row'.response_json ≡ some response
      → row'.completed_at ≡ some now
      → row'.error_code ≡ row.error_code
      → row'.failed_at ≡ row.failed_at
      → IsSound row'
  completed-IsSound row row' s r c p er ec ee ef = record {
    running_open = λ e. absurd (cc (c, e));
    completed_closed =
        λ e. (p, λ n. cc, λ n. cc, ee ∙ (s.running_open r).1, ef ∙ (s.running_open r).3);
    failed_closed = λ e. absurd (cc (c, e));
  }

  pub failed-IsSound :
      (row row' : AnswerRun C) {code : String} {now : ℕ}
      → IsSound row
      → row.status ≡ running
      → row'.status ≡ failed
      → row'.error_code ≡ some code
      → row'.failed_at ≡ some now
      → row'.response_json ≡ row.response_json
      → IsSound row'
  failed-IsSound row row' s r f ee ef er = record {
    running_open = λ e. absurd (cc (f, e));
    completed_closed = λ e. absurd (cc (f, e));
    failed_closed = λ e. (λ n. cc, λ n. cc, er ∙ (s.running_open r).0);
  }

  pub was_running : (row : AnswerRun C) → is_running row.status ≡ true → row.status ≡ running
  was_running row e = ground (arith, e)

  -- Every method that does not raise keeps the row sound.
  pub call_row-IsSound :
      (now : ℕ) (call : Call C) (row row' : AnswerRun C)
      → IsSound row
      → call_row now call row ≡ ok row'
      → IsSound row'
  unfolding call_row
  call_row-IsSound now (begin_phase previous phase) row row' s e =
      let (r, shape) = running_in previous row _ e in
      subst IsSound shape (kept_running row _ s r r refl refl refl refl)
  call_row-IsSound now (record_retrieval d ids n x) row row' s e =
      let (r, shape) = running_in retrieve row _ e in
      subst IsSound shape (kept_running row _ s r r refl refl refl refl)
  call_row-IsSound now (record_generation d answer) row row' s e =
      let (r, shape) = running_in generate row _ e in
      subst IsSound shape (kept_running row _ s r r refl refl refl refl)
  call_row-IsSound now (complete_run d c u i response) row row' s e =
      let (r, shape) = running_in citations row _ e in
      subst IsSound shape (completed-IsSound row _ s r refl refl refl refl refl refl)
  call_row-IsSound now (fail phase d code) row row' s e =
      elim (Bool-cases (is_running row.status)) [
        | inl run ↦
            subst IsSound (failed_result phase d code now row row' run e)
              (failed-IsSound row _ s (was_running row run) refl refl refl refl)
        | inr over ↦ subst IsSound (over_result phase d code now row row' over e) s
      ]
