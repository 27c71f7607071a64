-- ===== src/Task/Samples.antt =====
-- A task, runs of the model on it, and the theorems at it.
use reminder.Prelude.{ℕ, ◌+◌, eq_iff, ◌≡◌, refl, none, some, [], ◌∷◌, arith, ok, raised, write_row}
use reminder.Task.State.{
  pending, running, succeeded, failed, parsing, same, contains, normalize_task_status,
  resolve_task_transition,
}
use reminder.Task.Record.{
  status_stage, TaskRecord, get_task_record_by_id, transition_row, transition_task_status, move_row,
  store_transition, assign_task, transition_update,
}
use reminder.Task.Rows.{IsStep, transition_row-IsStep}
use reminder.Task.Maintenance.{Visit, rounds, Reaches, rounds_fail}

abbrev task : TaskRecord
task = record {
  id = "t1";
  task_type = "document_index";
  target_id = "d1";
  status = pending;
  progress_stage = none;
  queue_name = some "maintenance";
  attempt_count = 0;
  max_attempts = 3;
  result_summary = none;
  error_message = some "old";
  updated_at = 5;
}

program : Unit {0}
unfolding resolve_task_transition normalize_task_status contains same transition_row move_row
    transition_task_status store_transition get_task_record_by_id assign_task transition_update
program = tt

-- The first stage of a pending task starts it.
abbrev parsed : TaskRecord
parsed = record task {
  status = running;
  progress_stage = some (status_stage parsing);
  attempt_count = 1;
  error_message = none;
}

start_parsing : transition_row parsing none none task ≡ ok parsed
unfolding program
start_parsing = refl

pending_to_succeeded : resolve_task_transition pending succeeded ≡ raised 4009
unfolding program
pending_to_succeeded = refl

store_parsing :
    transition_task_status "t1" parsing none none (task ∷ []) ≡ (ok (some parsed), parsed ∷ [])
unfolding program write_row
store_parsing = refl

transition_row-IsStep_example : IsStep task parsed
transition_row-IsStep_example = transition_row-IsStep parsing none none task start_parsing

-- Three workers stop, each ten seconds before the threshold of the recovery.
abbrev visit : ℕ → Visit
visit now = record {
  now = now;
  pending_before = now;
  running_before = now + 10;
  limit = 100;
  others = record task { id = "t2" } ∷ [];
}

visit-Reaches : (now : ℕ) → Reaches "t1" (visit now)
visit-Reaches now = record {
  old = omega arith;
  room = omega arith;
  key = ((λ e. ground (arith, e, eq_iff "t2" "t1")), tt);
}

rounds_fail_example :
    let visits = visit 10 ∷ visit 30 ∷ visit 50 ∷ [] in
    ((rounds visits task).status ≡ failed) × ((rounds visits task).attempt_count ≡ 3)
rounds_fail_example =
    rounds_fail (visit 10 ∷ visit 30 ∷ visit 50 ∷ []) task refl refl (omega arith) (omega arith)
      (visit-Reaches 10, (visit-Reaches 30, (visit-Reaches 50, tt)))
