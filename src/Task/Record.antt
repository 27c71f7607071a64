-- ===== src/Task/Record.antt =====
-- `transition_task_status` of app/mneme/domains/tasks/state.py and app/mneme/crud/task_record.py: the
-- rows of `task_records` and the writes on them. Instants are numbers.
use reminder.Prelude.{
  ℕ, ◌+◌, String, Bool, false, ◌||◌, ◌&&◌, not, Option, none, some, List, [], ◌∷◌, map, ◌==◌, ltb,
  leb, if◌then◌else◌, is_some, Outcome, ok, raised, ◌>>=◌, find_row, write_row, keep, take, sort_by,
}
use reminder.Task.State.{
  Status, pending, running, succeeded, failed, retrying, cancelled, same, contains,
  normalize_task_status, resolve_task_transition,
}

-- The texts that the code stores as a stage: a status string, or one of the maintenance module's.
pub data Stage : Type 0 where
  status_stage : Status → Stage
  executing recovered : Stage

pub record TaskRecord : Type 0 where
  pub id : String
  pub task_type : String
  pub target_id : String
  pub status : Status
  pub progress_stage : Option Stage
  pub queue_name : Option String
  pub attempt_count : ℕ
  pub max_attempts : ℕ
  pub result_summary : Option String
  pub error_message : Option String
  pub updated_at : ℕ

unfoldable pub get_task_record_by_id : String → List TaskRecord → Option TaskRecord
unfolding find_row
get_task_record_by_id = find_row (λ task. task.id)

-- The arguments of `update_task_record_status` behind the id.
pub record TaskUpdate : Type 0 where
  pub status : Status
  pub progress_stage : Option Stage
  pub clear_progress_stage : Bool
  pub increment_attempt : Bool
  pub result_summary : Option String
  pub error_message : Option String
  pub clear_error : Bool

abbrev pub new_or_old {ℓ} : {A : Type ℓ} → Option A → Option A → Option A
new_or_old none old = old
new_or_old (some new) old = some new

-- The assignments of `update_task_record_status` on the loaded row.
unfoldable pub assign_task : TaskUpdate → TaskRecord → TaskRecord
assign_task u task = record task {
  status = u.status;
  progress_stage =
      if u.clear_progress_stage then none else new_or_old u.progress_stage task.progress_stage;
  attempt_count = if u.increment_attempt then task.attempt_count + 1 else task.attempt_count;
  result_summary = new_or_old u.result_summary task.result_summary;
  error_message = if u.clear_error then none else new_or_old u.error_message task.error_message;
}

unfoldable pub update_task_record_status : String → TaskUpdate → List TaskRecord → List TaskRecord
unfolding write_row
update_task_record_status task_id u = write_row (λ task. task.id) task_id (assign_task u)

-- What `transition_task_status` passes on for a resolved transition.
unfoldable pub transition_update :
    (current next_status : Status)
    → (progress_stage : Option Status) → (result_summary error_message : Option String) → TaskUpdate
unfolding normalize_task_status contains same
transition_update current next_status stage result_summary error_message = record {
  status = next_status;
  progress_stage = elim stage [ none ↦ none | some s ↦ some (status_stage s) ];
  clear_progress_stage =
      not (is_some stage) && contains next_status (pending ∷ retrying ∷ cancelled ∷ []);
  increment_attempt =
      same next_status running
      && contains (normalize_task_status current) (pending ∷ retrying ∷ []);
  result_summary = result_summary;
  error_message = error_message;
  clear_error = contains next_status (pending ∷ running ∷ succeeded ∷ retrying ∷ []);
}

-- The row behind a resolved transition, which is the same row where nothing changes.
unfoldable pub move_row :
    (next_status : Status)
    → (progress_stage : Option Status) → (result_summary error_message : Option String) → TaskRecord
    → TaskRecord
unfolding transition_update assign_task same normalize_task_status
move_row next_status stage result_summary error_message task =
    if same (normalize_task_status task.status) next_status && not (is_some stage)
    then task
    else assign_task (transition_update task.status next_status stage result_summary error_message)
        task

-- `transition_task_status` on a row that was found: the row behind it, or the exception.
unfoldable pub transition_row :
    Status → (result_summary error_message : Option String) → TaskRecord → Outcome TaskRecord
unfolding resolve_task_transition move_row
transition_row to_status result_summary error_message task = do
  (next_status, stage) ← resolve_task_transition task.status to_status
  ok (move_row next_status stage result_summary error_message task)

unfoldable pub store_transition :
    TaskRecord
    → Outcome TaskRecord
    → List TaskRecord
    → Outcome (Option TaskRecord) × List TaskRecord
store_transition task (raised code) tasks = (raised code, tasks)
store_transition task (ok task') tasks =
    (ok (some task'), write_row (λ (t : TaskRecord). t.id) task.id (λ _. task') tasks)

unfoldable pub transition_task_status :
    String
    → Status
    → (result_summary error_message : Option String) → List TaskRecord
    → Outcome (Option TaskRecord) × List TaskRecord
transition_task_status task_id to_status result_summary error_message tasks =
    elim (get_task_record_by_id task_id tasks) [
      | none ↦ (ok none, tasks)
      | some task ↦
          store_transition task (transition_row to_status result_summary error_message task) tasks
    ]

-- `claim_maintenance_task` on a row that was found.
unfoldable pub claim_row : TaskRecord → Option TaskRecord
claim_row task =
    if (elim task.queue_name [ none ↦ false | some queue ↦ queue == "maintenance" ])
      && contains task.status (pending ∷ retrying ∷ [])
    then some (record task {
      status = running;
      progress_stage = some executing;
      attempt_count = task.attempt_count + 1;
      error_message = none;
    })
    else none

-- The WHERE clause of `list_recoverable_maintenance_tasks`.
unfoldable pub is_recoverable : (pending_before running_before : ℕ) → TaskRecord → Bool
is_recoverable pending_before running_before task =
    elim task.queue_name [ none ↦ false | some queue ↦ queue == "maintenance" ]
    && (same task.status pending && ltb task.updated_at pending_before
        || same task.status running && ltb task.updated_at running_before)

-- What the loop of `list_recoverable_maintenance_tasks` assigns to a selected row.
unfoldable pub recover_row : TaskRecord → TaskRecord
recover_row task =
    if leb task.max_attempts task.attempt_count
    then record task {
      status = failed;
      progress_stage = none;
      error_message = some "maintenance task exceeded its recovery attempt limit";
    }
    else record task { status = pending; progress_stage = some recovered }

unfoldable pub list_recoverable_maintenance_tasks :
    (pending_before running_before limit : ℕ) → List TaskRecord → List TaskRecord
unfolding is_recoverable sort_by recover_row
list_recoverable_maintenance_tasks pending_before running_before limit tasks = map recover_row (
    take limit (
      sort_by (λ task. task.updated_at)
        (keep (is_recoverable pending_before running_before) tasks)))
