-- ===== src/AnswerRuns/Samples.antt =====
-- One run of the question "q", beside the table it stands in.
use reminder.Prelude.{
  distinct, ℕ, String, ◌≡◌, refl, false, none, some, List, [], ◌∷◌, find_row, write_row, sort_by,
}
use reminder.AnswerRuns.Record.{
  pos, negsuc, completed, failed, validate, retrieve, complete, set_duration, Columns, AnswerRun,
}
use reminder.AnswerRuns.Repository.{GeneratedAnswer, begin_phase, call_row}
use reminder.AnswerRuns.Table.{get_row, new_run, find_request, create, call_run, fail_stale}
use reminder.AnswerRuns.Lifecycle.{IsSound}
use reminder.AnswerRuns.Finality.{
  Op, create_run, call_one, sweep, apply_all, finished_stays, apply_all-IsSound,
}
use reminder.AnswerRuns.Progress.{successful_calls, successful_calls-complete}

abbrev columns : Columns
columns = record { Request = String; Execution = ℕ; Usage = ℕ; Confidence = ℕ; Response = String }

abbrev first_run : AnswerRun columns
first_run = new_run 5 "run_1" 7 "req_1" "q" 0 (pos 3)

abbrev second_run : AnswerRun columns
second_run = new_run 6 "run_2" 7 "req_1" "q" 0 (negsuc 3)

abbrev answer : GeneratedAnswer columns
answer = record {
  confidence = 90;
  uncertainty = none;
  insufficient_evidence = false;
  usage = 120;
  tool_source_ids = "s2" ∷ [];
  execution = 1;
}

abbrev failed_run : AnswerRun columns
failed_run = record first_run {
  status = failed;
  error_code = some "LLM_TIMEOUT";
  failed_at = some 9;
}

abbrev later : List (Op columns)
later =
    create_run 10 "run_2" 7 "req_1" "q" 0 (pos 1)
    ∷ (call_one 11 "run_1" (begin_phase validate retrieve) ∷ (sweep 90 80 10 ∷ []))

finished_stays_example : get_row "run_1" (apply_all later (failed_run ∷ [])) ≡ some failed_run
unfolding get_row find_row
finished_stays_example = finished_stays later "run_1" (failed_run ∷ []) failed_run refl refl

abbrev swept : AnswerRun columns
swept = record first_run {
  status = failed;
  current_phase = retrieve;
  error_code = some "AGENT_RUN_STALE";
  failed_at = some 90;
}

swept_run :
    get_row "run_1" (apply_all (create_run 5 "run_1" 7 "req_1" "q" 0 (pos 3) ∷ later) [])
    ≡ some swept
unfolding create find_request get_row find_row call_run call_row fail_stale sort_by distinct
    write_row set_duration
swept_run = refl

apply_all-IsSound_example : IsSound swept
apply_all-IsSound_example =
    apply_all-IsSound (create_run 5 "run_1" 7 "req_1" "q" 0 (pos 3) ∷ later) "run_1" swept swept_run

successful_calls-complete_example :
    (final : AnswerRun columns) × (get_row "run_1" (
        apply_all
          (successful_calls 20 30 "run_1"
            (pos 4)
            (pos 5)
            (pos 6)
            ("s1" ∷ [])
            1
            2
            answer
            80
            none
            false
            "42")
          (first_run ∷ []))
      ≡ some final)
    × (final.status ≡ completed)
    × (final.current_phase ≡ complete)
    × (final.response_json ≡ some "42")
    × (final.completed_at ≡ some 30)
    × (final.error_code ≡ none)
unfolding get_row find_row
successful_calls-complete_example =
    successful_calls-complete 20 30 "run_1" (pos 4) (pos 5) (pos 6) ("s1" ∷ []) 1 2 answer 80 none
      false "42" (first_run ∷ []) first_run refl refl refl
