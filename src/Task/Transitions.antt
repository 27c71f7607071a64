-- ===== src/Task/Transitions.antt =====
-- The transitions that `resolve_task_transition` admits, as a relation, and what follows for a row.
use reminder.Prelude.{
  ap, eq_refl, ◌≡◌, refl, ◌⊎◌, inl, inr, true, Option, none, some, if◌then◌else◌, arith, ◌≢◌,
  eq_iff, Bool-cases, ok, raised,
}
use reminder.Task.State.{
  Status, pending, running, succeeded, failed, retrying, cancelled, queued, completed, canceled,
  parsing, chunking, memory_extracting, embedding, vector_upserting, graph_projecting, eval_running,
  other, same, contains, progress_stage_statuses, normalize_task_status, resolve_task_transition,
  allowed_task_transitions,
}

-- The edges of the task life cycle.
pub data Edge : Status → Status → Type 0 where
  start : Edge pending running
  fail_pending : Edge pending failed
  cancel_pending : Edge pending cancelled
  succeed : Edge running succeeded
  fail_running : Edge running failed
  retry_running : Edge running retrying
  cancel_running : Edge running cancelled
  requeue : Edge retrying pending
  restart : Edge retrying running
  fail_retrying : Edge retrying failed
  cancel_retrying : Edge retrying cancelled
  retry_failed : Edge failed retrying
  reset_failed : Edge failed pending
  retry_cancelled : Edge cancelled retrying
  reset_cancelled : Edge cancelled pending

same→≡ : (s t : Status) → same s t ≡ true → s ≡ t
unfolding same
same→≡ pending pending h = refl
same→≡ running running h = refl
same→≡ succeeded succeeded h = refl
same→≡ failed failed h = refl
same→≡ retrying retrying h = refl
same→≡ cancelled cancelled h = refl
same→≡ queued queued h = refl
same→≡ completed completed h = refl
same→≡ canceled canceled h = refl
same→≡ parsing parsing h = refl
same→≡ chunking chunking h = refl
same→≡ memory_extracting memory_extracting h = refl
same→≡ embedding embedding h = refl
same→≡ vector_upserting vector_upserting h = refl
same→≡ graph_projecting graph_projecting h = refl
same→≡ eval_running eval_running h = refl
same→≡ (other s) (other t) h = ap other ((eq_iff s t).0 h)
same→≡ _ _ h = cc

pub same_refl : (s : Status) → same s s ≡ true
unfolding same
same_refl (other s) = eq_refl s
same_refl _ = refl

allowed-Edge : (s t : Status) → contains t (allowed_task_transitions s) ≡ true → Edge s t
unfolding contains same allowed_task_transitions
allowed-Edge pending running h = start
allowed-Edge pending failed h = fail_pending
allowed-Edge pending cancelled h = cancel_pending
allowed-Edge running succeeded h = succeed
allowed-Edge running failed h = fail_running
allowed-Edge running retrying h = retry_running
allowed-Edge running cancelled h = cancel_running
allowed-Edge retrying pending h = requeue
allowed-Edge retrying running h = restart
allowed-Edge retrying failed h = fail_retrying
allowed-Edge retrying cancelled h = cancel_retrying
allowed-Edge failed retrying h = retry_failed
allowed-Edge failed pending h = reset_failed
allowed-Edge cancelled retrying h = retry_cancelled
allowed-Edge cancelled pending h = reset_cancelled
allowed-Edge _ _ h = cc

Edge-allowed : {s t : Status} → Edge s t → contains t (allowed_task_transitions s) ≡ true
unfolding contains same allowed_task_transitions
Edge-allowed start = refl
Edge-allowed _ = refl

-- Whether a requested status is a stage of progress, which stands for `running`.
abbrev pub stage_of : Status → Option Status
stage_of requested = if contains requested progress_stage_statuses then some requested else none

stage_normalizes :
    (requested : Status)
    → contains requested progress_stage_statuses ≡ true
    → normalize_task_status requested ≡ running
unfolding normalize_task_status
stage_normalizes requested h = rw h

-- The resolution as one test, on the normal forms.
resolve_lem :
    (current requested : Status)
    → resolve_task_transition current requested ≡ (
        if same (normalize_task_status current) (normalize_task_status requested)
        then ok (normalize_task_status requested, stage_of requested)
        else if contains
            (normalize_task_status requested)
            (allowed_task_transitions (normalize_task_status current))
        then ok (normalize_task_status requested, stage_of requested)
        else raised 4009)
unfolding resolve_task_transition
resolve_lem current requested = ground (arith, stage_normalizes requested)

-- Either the normal forms are equal or an edge of the life cycle, and the transition gives the normal
-- form of the requested status, with the requested status itself where that is a stage of progress;
-- or they are neither, and it raises error 4009.
pub resolve_decides :
    (current requested : Status)
    → (((normalize_task_status current ≡ normalize_task_status requested)
          ⊎ Edge (normalize_task_status current) (normalize_task_status requested))
        × (resolve_task_transition current requested
            ≡ ok (normalize_task_status requested, stage_of requested)))
      ⊎ ((normalize_task_status current ≢ normalize_task_status requested)
          × (¬ Edge (normalize_task_status current) (normalize_task_status requested))
          × (resolve_task_transition current requested ≡ raised 4009))
resolve_decides current requested =
    let from = normalize_task_status current in
    let to = normalize_task_status requested in
    elim (Bool-cases (same from to)) [
      | inl e ↦ inl (inl (same→≡ from to e), rw (resolve_lem current requested) (rw e))
      | inr e ↦ elim (Bool-cases (contains to (allowed_task_transitions from))) [
        | inl f ↦ inl (inr (allowed-Edge from to f), rw (resolve_lem current requested) (rw (e, f)))
        | inr f ↦ inr (
          λ h. cc (same_refl to, ap (λ s. same s to) h),
          λ edge. cc (Edge-allowed edge),
          rw (resolve_lem current requested) (rw (e, f)),
        )
      ]
    ]

pub resolve_sound :
    (current requested : Status) {r : Status × Option Status}
    → resolve_task_transition current requested ≡ ok r
    → (r ≡ (normalize_task_status requested, stage_of requested))
      × ((normalize_task_status current ≡ normalize_task_status requested)
          ⊎ Edge (normalize_task_status current) (normalize_task_status requested))
resolve_sound current requested {r} e = elim (resolve_decides current requested) [
  | inl (allowed, f) ↦ (cc, allowed)
  | inr (_, _, f) ↦ cc
]

-- Normal forms are stable: a stored status is its own normal form.
pub normalize_idem :
    (s : Status) → normalize_task_status (normalize_task_status s) ≡ normalize_task_status s
unfolding normalize_task_status
normalize_idem (other s) = refl
normalize_idem _ = refl

Edge_from_succeeded : {s t : Status} → Edge s t → s ≢ succeeded
Edge_from_succeeded start h = cc
Edge_from_succeeded _ h = cc

-- A succeeded task, under either of its names, is never moved to another status.
pub succeeded_is_final :
    (current requested : Status) {r : Status × Option Status}
    → normalize_task_status current ≡ succeeded
    → resolve_task_transition current requested ≡ ok r
    → r.0 ≡ succeeded
succeeded_is_final current requested {r} h e =
    let (shape, allowed) = resolve_sound current requested e in
    elim allowed [ inl keeps ↦ cc | inr edge ↦ absurd (Edge_from_succeeded edge h) ]
