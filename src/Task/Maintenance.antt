-- ===== src/Task/Maintenance.antt =====
-- Claiming and recovering maintenance tasks, whose worker may stop at any time.
use mathlib.Core.Option
use reminder.Prelude.{
  ℕ, suc, ◌+◌, ◌≤◌, ◌<◌, String, ◌≡◌, ◌≢◌, true, sym, subst, ap, ◌⊎◌, Option, none, some, List, [],
  ◌∷◌, if◌then◌else◌, leb, arith, map, length, take, keep, sort_by, All, length-map, length-take,
  ◌∙◌,
}
use reminder.Task.State.{pending, running, failed, contains, same}
use reminder.Task.Record.{
  executing, TaskRecord, get_task_record_by_id, claim_row, is_recoverable, recover_row,
  list_recoverable_maintenance_tasks,
}
use reminder.Task.Selection.{found-recoverable}

-- A visit of a worker that stops: the instant of its claim, the call of the recovery behind it, and the
-- other rows of the table at that time.
pub record Visit : Type 0 where
  pub now : ℕ
  pub pending_before : ℕ
  pub running_before : ℕ
  pub limit : ℕ
  pub others : List TaskRecord

-- The claim writes `updated_at`, as every UPDATE does.
abbrev pub claimed_at : (now : ℕ) → TaskRecord → TaskRecord
claimed_at now claimed = record claimed { updated_at = now }

-- The row behind the recovery: the one that the recovery hands over, if it does.
abbrev pub recovered_by : Visit → TaskRecord → TaskRecord
recovered_by v claimed =
    Option.get_or
      (get_task_record_by_id claimed.id (
        list_recoverable_maintenance_tasks v.pending_before v.running_before v.limit
          (claimed ∷ v.others)))
      claimed

unfoldable pub visited : Visit → TaskRecord → TaskRecord
visited v task = elim (claim_row task) [
  | none ↦ task
  | some claimed ↦ recovered_by v (claimed_at v.now claimed)
]

unfoldable pub rounds : List Visit → TaskRecord → TaskRecord
unfolding visited
rounds [] task = task
rounds (v ∷ visits) task = rounds visits (visited v task)

-- The claim is old enough for the recovery, which has room for all rows, and the id is a key.
pub record Reaches (task_id : String) (v : Visit) : Type 0 where
  pub old : v.now < v.running_before
  pub room : suc (length v.others) ≤ v.limit
  pub key : All (λ (t : TaskRecord). t.id ≢ task_id) v.others

All-recovered :
    (tasks : List TaskRecord)
    → All
        (λ task.
          ((task.status ≡ failed) × (task.max_attempts ≤ task.attempt_count))
          ⊎ ((task.status ≡ pending) × (task.attempt_count < task.max_attempts)))
        (map recover_row tasks)
unfolding recover_row
All-recovered [] = tt
All-recovered (task ∷ tasks) = (ground arith, All-recovered tasks)

-- What a claim makes of a pending maintenance task.
abbrev claimed_row : TaskRecord → TaskRecord
claimed_row task = record task {
  status = running;
  progress_stage = some executing;
  attempt_count = task.attempt_count + 1;
  error_message = none;
}

claim_pending :
    (task : TaskRecord)
    → task.queue_name ≡ some "maintenance"
    → task.status ≡ pending
    → claim_row task ≡ some (claimed_row task)
unfolding claim_row contains
claim_pending task q p = ground arith

claimed-is_recoverable :
    (v : Visit) (task : TaskRecord)
    → task.queue_name ≡ some "maintenance"
    → v.now < v.running_before
    → is_recoverable v.pending_before v.running_before (claimed_at v.now (claimed_row task)) ≡ true
unfolding is_recoverable same
claimed-is_recoverable v task q old = ground (arith, q, old)

visited_lem :
    (v : Visit) (task : TaskRecord)
    → task.queue_name ≡ some "maintenance"
    → task.status ≡ pending
    → Reaches task.id v
    → visited v task ≡ recover_row (claimed_at v.now (claimed_row task))
unfolding visited
visited_lem v task q p r =
    rw (claim_pending task q p, visited)
      (ap (λ (o : Option TaskRecord). Option.get_or o (claimed_at v.now (claimed_row task)))
        (found-recoverable v.pending_before v.running_before v.limit
          (claimed_at v.now (claimed_row task)) v.others (claimed-is_recoverable v task q r.old)
          r.room r.key))

-- One round of a pending maintenance task.
round_pending :
    (v : Visit) (task : TaskRecord)
    → task.queue_name ≡ some "maintenance"
    → task.status ≡ pending
    → Reaches task.id v
    → ((visited v task).id ≡ task.id)
      × ((visited v task).queue_name ≡ some "maintenance")
      × ((visited v task).attempt_count ≡ task.attempt_count + 1)
      × ((visited v task).max_attempts ≡ task.max_attempts)
      × ((visited v task).status
          ≡ (if leb task.max_attempts (task.attempt_count + 1) then failed else pending))
unfolding recover_row
round_pending v task q p r = rw (visited_lem v task q p r) (ground (arith, q))

-- A pending maintenance task is claimed by one worker after the other, each of which stops for good,
-- and each time the recovery runs once its claim is older than the threshold, with a limit not below
-- the rows of the table. Then each recovery hands the task over, pending again while attempts are
-- left, and it has failed after as many rounds as there were attempts left, with `max_attempts`
-- attempts counted.
pub rounds_fail :
    (visits : List Visit) (task : TaskRecord)
    → task.queue_name ≡ some "maintenance"
    → task.status ≡ pending
    → task.attempt_count < task.max_attempts
    → task.max_attempts ≡ task.attempt_count + length visits
    → All (Reaches task.id) visits
    → ((rounds visits task).status ≡ failed)
      × ((rounds visits task).attempt_count ≡ task.max_attempts)
unfolding rounds
rounds_fail [] task q p left e r = absurd (omega arith)
rounds_fail (v ∷ []) task q p left e r = ground (arith, round_pending v task q p r.0)
rounds_fail (v ∷ w ∷ visits) task q p left e r =
    let (same, q', counted, limit, moved) = round_pending v task q p r.0 in
    let (done, used) =
      rounds_fail (w ∷ visits) (visited v task) q' (ground arith) (omega arith) (omega arith)
        (subst (λ i. All (Reaches i) (w ∷ visits)) (sym same) r.1) in
    (done, used ∙ limit)

-- Recovery hands over at most `limit` rows; each is failed with no attempts left, or pending again.
pub list_recoverable_rows :
    (pending_before running_before limit : ℕ) (tasks : List TaskRecord)
    → (length (list_recoverable_maintenance_tasks pending_before running_before limit tasks)
        ≤ limit)
      × All
          (λ task.
            ((task.status ≡ failed) × (task.max_attempts ≤ task.attempt_count))
            ⊎ ((task.status ≡ pending) × (task.attempt_count < task.max_attempts)))
          (list_recoverable_maintenance_tasks pending_before running_before limit tasks)
unfolding list_recoverable_maintenance_tasks
list_recoverable_rows pending_before running_before limit tasks =
    let rank = λ (task : TaskRecord). task.updated_at in
    let chosen = sort_by rank (keep (is_recoverable pending_before running_before) tasks) in
    (
      omega (arith, length-map (take limit chosen) recover_row, length-take limit chosen),
      All-recovered (take limit chosen),
    )
