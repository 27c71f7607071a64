-- ===== src/Outbox/Schedules.antt =====
-- What deliveries keep, in any order of their transactions.
use reminder.Prelude.{
  ℕ, ◌<◌, String, ◌≡◌, refl, subst, inl, inr, true, eq_iff, Option, none, some, List, [], ◌∷◌, ◌==◌,
  eqb, arith, Bool-cases, Option-cases,
}
use reminder.Outbox.Event.{OutboxEvent, Settings, should_dead_letter}
use reminder.Outbox.Table.{
  get_outbox_event_by_id, StatusUpdate, assign_status, update_outbox_event_status,
  enqueue_outbox_event,
}
use reminder.Outbox.Worker.{
  mark_outbox_running, mark_outbox_succeeded, failure_status, mark_outbox_failed, Applied, applied,
  threw, conclude,
}
use reminder.Outbox.Rows.{get-update, id-get}
use reminder.Outbox.Delivery.{get-enqueue_outbox_event}
use reminder.Outbox.Invariant.{IsSound, AllSound, enqueue-AllSound}
use reminder.Outbox.Overlap.{
  Phase, idle, loaded, called, Site, Action, load, mark, finish, stop, enqueue, waits, moved,
  load_step, mark_step, finish_step, step, run,
}

module _ {P : Type 0} where
  -- A snapshot in a worker's hands: it had attempts left, and its row is still in the table.
  pub record IsHeld (outbox : List (OutboxEvent P)) (event : OutboxEvent P) : Type 0 where
    pub row : OutboxEvent P
    pub there : get_outbox_event_by_id event.id outbox ≡ some row
    pub limit : row.max_attempts ≡ event.max_attempts
    pub left : event.attempt_count < event.max_attempts

  abbrev pub Fits : List (OutboxEvent P) → Phase P → Type 0
  Fits outbox idle = Unit
  Fits outbox (loaded event) = IsHeld outbox event
  Fits outbox (called event) = IsHeld outbox event

  pub record IsInOrder (s : Site P) : Type 0 where
    pub sound : AllSound s.outbox
    pub held : (worker : ℕ) → Fits s.outbox (s.workers worker)

  -- A write that keeps the row of its event sound keeps all rows sound.
  update-AllSound :
      (i : String) (u : StatusUpdate) (outbox : List (OutboxEvent P))
      → AllSound outbox
      → ((row : OutboxEvent P)
          → get_outbox_event_by_id i outbox ≡ some row
          → IsSound (assign_status u row))
      → AllSound (update_outbox_event_status i u outbox)
  update-AllSound i u outbox h keep j event e = elim (Bool-cases (i == j)) [
    | inl same ↦ elim (Option-cases (get_outbox_event_by_id j outbox)) [
      | inl gone ↦ absurd (ground (arith, get-update i j u outbox, same, gone, e))
      | inr (row, found) ↦
          subst IsSound {x = assign_status u row} {y = event}
            (ground (arith, get-update i j u outbox, same, found, e))
            (keep row (
              subst (λ k. get_outbox_event_by_id k outbox ≡ some row)
                (ground (arith, eq_iff i j, same)) found))
    ]
    | inr other ↦ h j event (cc (get-update i j u outbox, other, e))
  ]

  update-IsHeld :
      (i : String) (u : StatusUpdate) (outbox : List (OutboxEvent P)) (event : OutboxEvent P)
      → IsHeld outbox event
      → IsHeld (update_outbox_event_status i u outbox) event
  unfolding assign_status
  update-IsHeld i u outbox event h = elim (Bool-cases (i == event.id)) [
    | inl same ↦ record {
      row = assign_status u h.row;
      there = ground (arith, get-update i event.id u outbox, same, h.there);
      limit = h.limit;
      left = h.left;
    }
    | inr other ↦ record {
      row = h.row;
      there = cc (get-update i event.id u outbox, other, h.there);
      limit = h.limit;
      left = h.left;
    }
  ]

  one_row :
      (outbox : List (OutboxEvent P)) (event row : OutboxEvent P) (h : IsHeld outbox event)
      → get_outbox_event_by_id event.id outbox ≡ some row
      → row.max_attempts ≡ event.max_attempts
  one_row outbox event row h e = ground (arith, h.there, h.limit, e)

  marked-AllSound :
      (now : ℕ) (event : OutboxEvent P) (outbox : List (OutboxEvent P))
      → AllSound outbox
      → IsHeld outbox event
      → AllSound (mark_outbox_running now event outbox)
  unfolding mark_outbox_running assign_status
  marked-AllSound now event outbox sound h =
      update-AllSound event.id _ outbox sound
        (λ row e. ground (arith, one_row outbox event row h e, h.left))

  concluded-AllSound :
      (settings : Settings) (now : ℕ) (event : OutboxEvent P) (r : Applied)
      (outbox : List (OutboxEvent P))
      → AllSound outbox
      → IsHeld outbox event
      → AllSound (conclude {W = Unit {0}} settings now event r tt outbox).1.outbox
  unfolding conclude mark_outbox_succeeded mark_outbox_failed assign_status failure_status
      should_dead_letter
  concluded-AllSound settings now event applied outbox sound h =
      update-AllSound event.id _ outbox sound
        (λ row e. ground (arith, (sound event.id row e).attempts_bounded))
  concluded-AllSound settings now event (threw exc) outbox sound h =
      update-AllSound event.id _ outbox sound
        (λ row e. ground (arith, one_row outbox event row h e, h.left))

  kept-Fits :
      (outbox later : List (OutboxEvent P))
      → ((event : OutboxEvent P) → IsHeld outbox event → IsHeld later event)
      → (phase : Phase P) → Fits outbox phase
      → Fits later phase
  kept-Fits outbox later keep idle f = tt
  kept-Fits outbox later keep (loaded event) f = keep event f
  kept-Fits outbox later keep (called event) f = keep event f

  marked-IsHeld :
      (now : ℕ) (own : OutboxEvent P) (outbox : List (OutboxEvent P)) (event : OutboxEvent P)
      → IsHeld outbox event
      → IsHeld (mark_outbox_running now own outbox) event
  unfolding mark_outbox_running
  marked-IsHeld now own outbox event h = update-IsHeld own.id _ outbox event h

  -- A transaction that keeps a held snapshot held keeps what all workers hold.
  moved-Fits :
      (worker : ℕ) (phase : Phase P) (workers : ℕ → Phase P) (outbox later : List (OutboxEvent P))
      → ((event : OutboxEvent P) → IsHeld outbox event → IsHeld later event)
      → ((k : ℕ) → Fits outbox (workers k))
      → Fits later phase
      → (k : ℕ) → Fits later (moved worker phase workers k)
  moved-Fits worker phase workers outbox later keep held new k = elim (Bool-cases (eqb worker k)) [
    | inl own ↦ rw own new
    | inr other ↦ rw other (kept-Fits outbox later keep (workers k) (held k))
  ]

  conclude-IsHeld :
      (settings : Settings) (now : ℕ) (own : OutboxEvent P) (r : Applied)
      (outbox : List (OutboxEvent P)) (event : OutboxEvent P)
      → IsHeld outbox event
      → IsHeld (conclude {W = Unit {0}} settings now own r tt outbox).1.outbox event
  unfolding conclude mark_outbox_succeeded mark_outbox_failed
  conclude-IsHeld settings now own applied outbox event h = update-IsHeld own.id _ outbox event h
  conclude-IsHeld settings now own (threw exc) outbox event h =
      update-IsHeld own.id _ outbox event h

  load-IsHeld :
      (i : String) (outbox : List (OutboxEvent P)) (event : OutboxEvent P)
      → AllSound outbox
      → get_outbox_event_by_id i outbox ≡ some event
      → waits event.status ≡ true
      → IsHeld outbox event
  load-IsHeld i outbox event sound e w =
      let h = sound i event e in
      record {
        row = event;
        there = cc (e, id-get i outbox e);
        limit = refl;
        left = ground (arith, w, h.pending_has_attempts, h.failed_has_attempts);
      }

  load-IsInOrder :
      (worker : ℕ) (i : String) (phase : Phase P) (s : Site P)
      → IsInOrder s
      → IsInOrder (load_step worker (get_outbox_event_by_id i s.outbox) phase s)
  load-IsInOrder worker i phase s h = found_case (get_outbox_event_by_id i s.outbox) phase refl
    where
      found_case :
          (found : Option (OutboxEvent P)) (phase : Phase P)
          → get_outbox_event_by_id i s.outbox ≡ found
          → IsInOrder (load_step worker found phase s)
      found_case none phase e = unfold load_step in h
      found_case (some event) (loaded own) e = unfold load_step in h
      found_case (some event) (called own) e = unfold load_step in h
      found_case (some event) idle e =
          unfold load_step in
          elim (Bool-cases (waits event.status)) [
            | inl w ↦ rw w (record {
              sound = h.sound;
              held =
                  moved-Fits worker (loaded event) s.workers s.outbox s.outbox (λ own f. f) h.held
                    (load-IsHeld i s.outbox event h.sound e w);
            })
            | inr no_wait ↦ rw no_wait h
          ]

  mark-IsInOrder :
      (worker now : ℕ) (phase : Phase P) (s : Site P)
      → IsInOrder s
      → Fits s.outbox phase
      → IsInOrder (mark_step worker now phase s)
  unfolding mark_step
  mark-IsInOrder worker now idle s h f = h
  mark-IsInOrder worker now (called event) s h f = h
  mark-IsInOrder worker now (loaded event) s h f =
      let keep =
        λ (own : OutboxEvent P) (k : IsHeld s.outbox own). marked-IsHeld now event s.outbox own k in
      record {
        sound = marked-AllSound now event s.outbox h.sound f;
        held =
            moved-Fits worker (called event) s.workers s.outbox
              (mark_outbox_running now event s.outbox) keep h.held (keep event f);
      }

  finish-IsInOrder :
      (settings : Settings) (worker now : ℕ) (r : Applied) (phase : Phase P) (s : Site P)
      → IsInOrder s
      → Fits s.outbox phase
      → IsInOrder (finish_step settings worker now r phase s)
  unfolding finish_step
  finish-IsInOrder settings worker now r idle s h f = h
  finish-IsInOrder settings worker now r (loaded event) s h f = h
  finish-IsInOrder settings worker now r (called event) s h f = record {
    sound = concluded-AllSound settings now event r s.outbox h.sound f;
    held =
        moved-Fits worker idle s.workers s.outbox
          (conclude {W = Unit {0}} settings now event r tt s.outbox).1.outbox
          (conclude-IsHeld settings now event r s.outbox) h.held tt;
  }

  step-IsInOrder :
      (settings : Settings) (action : Action P) (s : Site P)
      → 0 < settings.event_max_attempts
      → IsInOrder s
      → IsInOrder (step settings action s)
  unfolding step
  step-IsInOrder settings (load worker i) s pos h = load-IsInOrder worker i (s.workers worker) s h
  step-IsInOrder settings (mark worker now) s pos h =
      mark-IsInOrder worker now (s.workers worker) s h (h.held worker)
  step-IsInOrder settings (finish worker now r) s pos h =
      finish-IsInOrder settings worker now r (s.workers worker) s h (h.held worker)
  step-IsInOrder settings (stop worker) s pos h = record {
    sound = h.sound;
    held = moved-Fits worker idle s.workers s.outbox s.outbox (λ own f. f) h.held tt;
  }
  step-IsInOrder settings (enqueue new_id now request) s pos h = record {
    sound = enqueue-AllSound settings new_id now request s.outbox pos h.sound;
    held = λ worker.
        kept-Fits s.outbox (enqueue_outbox_event settings new_id now request s.outbox).1
          (λ own f. record {
            row = f.row;
            there = get-enqueue_outbox_event settings now new_id request own.id s.outbox f.there;
            limit = f.limit;
            left = f.left;
          })
          (s.workers worker) (h.held worker);
  }

  run-IsInOrder :
      (settings : Settings) (actions : List (Action P)) (s : Site P)
      → 0 < settings.event_max_attempts
      → IsInOrder s
      → IsInOrder (run settings actions s)
  unfolding run
  run-IsInOrder settings [] s pos h = h
  run-IsInOrder settings (action ∷ rest) s pos h =
      run-IsInOrder settings rest (step settings action s) pos
        (step-IsInOrder settings action s pos h)

  -- No worker has an event.
  abbrev pub alone : List (OutboxEvent P) → Site P
  alone outbox = record { outbox = outbox; workers = λ worker. idle }

  -- Where at least one attempt is configured, every row stays sound whatever the transactions of any
  -- number of workers do in any order: several of them deliver one event at once, stop at any point,
  -- and end with what the handler gave, and anyone, a handler included, enqueues in between.
  pub run-AllSound :
      (settings : Settings) (actions : List (Action P)) (outbox : List (OutboxEvent P))
      → 0 < settings.event_max_attempts
      → AllSound outbox
      → AllSound (run settings actions (alone outbox)).outbox
  run-AllSound settings actions outbox pos h =
      (run-IsInOrder settings actions (alone outbox) pos
        (record { sound = h; held = λ worker. tt })).sound
