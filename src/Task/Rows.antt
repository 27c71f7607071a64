-- ===== src/Task/Rows.antt =====
-- What the writes of Task/Record.antt leave in the rows.
use reminder.Prelude.{
  subst, not, ◌+◌, String, ◌≡◌, refl, ◌⊎◌, inl, inr, false, ◌&&◌, Option, none, some, List, ◌∷◌, [],
  ◌==◌, if◌then◌else◌, is_some, eq_iff, arith, Bool-cases, Option-cases, Outcome, ok, raised,
  find_row-write_row, key-find_row,
}
use reminder.Task.State.{
  other, Status, pending, running, retrying, same, contains, normalize_task_status,
}
use reminder.Task.Transitions.{Edge, resolve_decides, stage_of, normalize_idem}
use reminder.Task.Record.{
  TaskRecord, get_task_record_by_id, assign_task, transition_update, transition_row, move_row,
  store_transition, transition_task_status,
}

-- A row's way through an accepted transition: an edge of the life cycle or no change of the normal
-- form, with an attempt counted exactly where a pending or retrying task starts to run.
pub record IsStep (task task' : TaskRecord) : Type 0 where
  pub same_id : task'.id ≡ task.id
  pub moved :
      (normalize_task_status task.status ≡ normalize_task_status task'.status)
      ⊎ Edge (normalize_task_status task.status) (normalize_task_status task'.status)
  pub counted : task'.attempt_count ≡ (
      if same (normalize_task_status task'.status) running
        && contains (normalize_task_status task.status) (pending ∷ retrying ∷ [])
      then task.attempt_count + 1
      else task.attempt_count)
  pub same_limit : task'.max_attempts ≡ task.max_attempts

not_restarted : (s : Status) → (same s running && contains s (pending ∷ retrying ∷ [])) ≡ false
unfolding same contains
not_restarted running = refl
not_restarted (other s) = refl
not_restarted _ = refl

kept_row : (task : TaskRecord) → IsStep task task
kept_row task = record {
  same_id = refl;
  moved = inl refl;
  counted = rw not_restarted;
  same_limit = refl;
}

assigned_row :
    (next : Status) (stage : Option Status) (summary error : Option String) (task : TaskRecord)
    → normalize_task_status next ≡ next
    → (normalize_task_status task.status ≡ next) ⊎ Edge (normalize_task_status task.status) next
    → IsStep task (assign_task (transition_update task.status next stage summary error) task)
unfolding assign_task transition_update
assigned_row next stage summary error task normal allowed = record {
  same_id = refl;
  moved = rw normal allowed;
  counted = rw normal;
  same_limit = refl;
}

move_row-IsStep :
    (next : Status) (stage : Option Status) (summary error : Option String) (task : TaskRecord)
    → normalize_task_status next ≡ next
    → (normalize_task_status task.status ≡ next) ⊎ Edge (normalize_task_status task.status) next
    → IsStep task (move_row next stage summary error task)
unfolding move_row
move_row-IsStep next stage summary error task normal allowed =
    elim (Bool-cases (same (normalize_task_status task.status) next && not (is_some stage))) [
      | inl e ↦ rw e (kept_row task)
      | inr e ↦ rw e (assigned_row next stage summary error task normal allowed)
    ]

-- A transition that does not raise takes the row one step along the life cycle.
pub transition_row-IsStep :
    (to : Status) (summary error : Option String) (task : TaskRecord) {task' : TaskRecord}
    → transition_row to summary error task ≡ ok task'
    → IsStep task task'
unfolding transition_row
transition_row-IsStep to summary error task {task'} e = elim (resolve_decides task.status to) [
  | inl (allowed, f) ↦ subst (IsStep task) (cc (rw f at e)) (
      move_row-IsStep (normalize_task_status to) (stage_of to) summary error task
        (normalize_idem to) allowed)
  | inr (_, _, f) ↦ absurd (cc (rw f at e))
]

-- The row behind a transition: the resolved one, or the same row where it raises.
abbrev pub row_after : Outcome TaskRecord → TaskRecord → TaskRecord
row_after (ok task') task = task'
row_after (raised code) task = task

-- What a transition returns to its caller.
abbrev pub reply : Outcome TaskRecord → Outcome (Option TaskRecord)
reply (ok task') = ok (some task')
reply (raised code) = raised code

row_of_store :
    (task : TaskRecord) (r : Outcome TaskRecord) (tasks : List TaskRecord) (j : String)
    → get_task_record_by_id task.id tasks ≡ some task
    → ((task' : TaskRecord) → r ≡ ok task' → task'.id ≡ task.id)
    → get_task_record_by_id j (store_transition task r tasks).1
      ≡ (if task.id == j then some (row_after r task) else get_task_record_by_id j tasks)
unfolding store_transition get_task_record_by_id
row_of_store task (raised code) tasks j e same = ground (arith, eq_iff task.id j)
row_of_store task (ok task') tasks j e same = ground (
  arith,
  eq_iff task.id j,
  find_row-write_row (λ (t : TaskRecord). t.id) task.id j (λ _. task') tasks
      (λ r h. same task' refl),
)

reply_of_store :
    (task : TaskRecord) (r : Outcome TaskRecord) (tasks : List TaskRecord)
    → (store_transition task r tasks).0 ≡ reply r
unfolding store_transition
reply_of_store task (ok task') tasks = refl
reply_of_store task (raised code) tasks = refl

key-find_task :
    (id : String) (tasks : List TaskRecord) {task : TaskRecord}
    → get_task_record_by_id id tasks ≡ some task
    → task.id ≡ id
unfolding get_task_record_by_id
key-find_task id tasks e = key-find_row (λ task. task.id) id tasks e

transition_missing :
    (id : String) (to : Status) (summary error : Option String) (tasks : List TaskRecord)
    → get_task_record_by_id id tasks ≡ none
    → transition_task_status id to summary error tasks ≡ (ok none, tasks)
unfolding transition_task_status
transition_missing id to summary error tasks e = rw (e, transition_task_status)

transition_found :
    (id : String) (to : Status) (summary error : Option String) (tasks : List TaskRecord)
    {task : TaskRecord}
    → get_task_record_by_id id tasks ≡ some task
    → transition_task_status id to summary error tasks
      ≡ store_transition task (transition_row to summary error task) tasks
unfolding transition_task_status
transition_found id to summary error tasks e = rw (e, transition_task_status)

-- `transition_task_status` returns None for an unknown id, and else the row or the exception of
-- the transition; only the row of that id changes, and on an exception none.
pub transition_task_status_lem :
    (id : String) (to : Status) (summary error : Option String) (tasks : List TaskRecord)
    → ((get_task_record_by_id id tasks ≡ none)
        × (transition_task_status id to summary error tasks ≡ (ok none, tasks)))
      ⊎ ((task : TaskRecord) × (get_task_record_by_id id tasks ≡ some task)
          × ((transition_task_status id to summary error tasks).0
              ≡ reply (transition_row to summary error task))
          × ((j : String)
              → get_task_record_by_id j (transition_task_status id to summary error tasks).1 ≡ (
                  if id == j
                  then some (row_after (transition_row to summary error task) task)
                  else get_task_record_by_id j tasks)))
transition_task_status_lem id to summary error tasks =
    elim (Option-cases (get_task_record_by_id id tasks)) [
      | inl e ↦ inl (e, transition_missing id to summary error tasks e)
      | inr (task, e) ↦ inr (
        task,
        e,
        cc (
          transition_found id to summary error tasks e,
          reply_of_store task (transition_row to summary error task) tasks,
        ),
        λ j.
            let named : task.id ≡ id = key-find_task id tasks e in
            cc (
              transition_found id to summary error tasks e,
              named,
              row_of_store task (transition_row to summary error task) tasks j (simp named e)
                  (λ task' f. (transition_row-IsStep to summary error task f).same_id),
            ),
      )
    ]
