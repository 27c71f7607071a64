-- ===== src/Task/State.antt =====
-- app/mneme/domains/tasks/state.py: the status strings, their normal forms and the allowed
-- transitions. A status is one of the module's strings or `other`, any string that it does not name.
use reminder.Prelude.{
  String, Bool, true, false, Option, none, some, List, [], ◌∷◌, ◌==◌, if◌then◌else◌, Outcome, ok,
  raised,
}

pub data Status : Type 0 where
  pending running succeeded failed retrying cancelled : Status
  queued completed canceled : Status
  parsing chunking memory_extracting embedding vector_upserting graph_projecting eval_running :
      Status
  other : String → Status

-- `==` on the strings.
unfoldable pub same : Status → Status → Bool
same pending pending = true
same running running = true
same succeeded succeeded = true
same failed failed = true
same retrying retrying = true
same cancelled cancelled = true
same queued queued = true
same completed completed = true
same canceled canceled = true
same parsing parsing = true
same chunking chunking = true
same memory_extracting memory_extracting = true
same embedding embedding = true
same vector_upserting vector_upserting = true
same graph_projecting graph_projecting = true
same eval_running eval_running = true
same (other s) (other t) = s == t
same _ _ = false

unfoldable pub contains : Status → List Status → Bool
unfolding same
contains s [] = false
contains s (t ∷ ts) = let rest = contains s ts in if same t s then true else rest

abbrev pub active_task_statuses : List Status
active_task_statuses = pending ∷ running ∷ retrying ∷ []

abbrev pub progress_stage_statuses : List Status
progress_stage_statuses =
    parsing ∷ chunking ∷ memory_extracting ∷ embedding ∷ vector_upserting ∷ graph_projecting
    ∷ eval_running ∷ []

unfoldable pub legacy_status_alias : Status → Status
legacy_status_alias queued = pending
legacy_status_alias completed = succeeded
legacy_status_alias canceled = cancelled
legacy_status_alias status = status

unfoldable pub allowed_task_transitions : Status → List Status
allowed_task_transitions pending = running ∷ failed ∷ cancelled ∷ []
allowed_task_transitions running = succeeded ∷ failed ∷ retrying ∷ cancelled ∷ []
allowed_task_transitions retrying = pending ∷ running ∷ failed ∷ cancelled ∷ []
allowed_task_transitions failed = retrying ∷ pending ∷ []
allowed_task_transitions cancelled = retrying ∷ pending ∷ []
allowed_task_transitions _ = []

unfoldable pub normalize_task_status : Status → Status
unfolding contains legacy_status_alias
normalize_task_status status =
    if contains status progress_stage_statuses then running else legacy_status_alias status

unfoldable pub is_active_task_status : Status → Bool
unfolding normalize_task_status contains
is_active_task_status status = contains (normalize_task_status status) active_task_statuses

unfoldable pub resolve_task_transition :
    (current_status requested_status : Status) → Outcome (Status × Option Status)
unfolding normalize_task_status contains allowed_task_transitions same
resolve_task_transition current_status requested_status =
    let is_stage = contains requested_status progress_stage_statuses in
    let normalized_current = normalize_task_status current_status in
    let progress_stage : Option Status = if is_stage then some requested_status else none in
    let normalized_requested =
      if is_stage then running else normalize_task_status requested_status in
    if same normalized_current normalized_requested
    then ok (normalized_requested, progress_stage)
    else if contains normalized_requested (allowed_task_transitions normalized_current)
    then ok (normalized_requested, progress_stage)
    else raised 4009
