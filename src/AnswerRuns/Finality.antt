-- ===== src/AnswerRuns/Finality.antt =====
-- Any sequence of calls on the table: every row stays sound, and a run that is over stays as it is.
use mathlib.Core.Option
use reminder.Prelude.{
  ℕ, String, ◌≡◌, refl, sym, subst, ap, ◌∙◌, ◌⊎◌, inl, inr, false, ◌&&◌, Option, none, some, List,
  [], ◌∷◌, ◌++◌, ◌==◌, if◌then◌else◌, eq_iff, arith, Bool-cases, Option-cases, some_of, find_row,
  write_row, find_row-write_row, key-find_row, find_row-append, find_row-append_some, find_row-map,
}
use reminder.AnswerRuns.Record.{ℤ, running, Columns, AnswerRun}
use reminder.AnswerRuns.Repository.{
  Result, ok, invalid_run_transition, lookup_error, is_running, Call, begin_phase, record_retrieval,
  record_generation, complete_run, fail, call_row, stale_row,
}
use reminder.AnswerRuns.Table.{
  get_row, new_run, find_request, create, after_call, on_row, call_run, is_stale, stale_ids,
  fail_if_stale, fail_stale,
}
use reminder.AnswerRuns.Lifecycle.{IsSound, call_row-IsSound, failed-IsSound, was_running}

pub data Op (C : Columns) : Type 0 where
  create_run :
      (now : ℕ)
      → (run_id : String) → (owner_id : ℕ) → (request_id : String) → C.Request
      → C.Execution
      → ℤ
      → Op C
  call_one : (now : ℕ) → (run_id : String) → Call C → Op C
  sweep : (now stale_before limit : ℕ) → Op C

module _ {C : Columns} where
  abbrev pub apply : Op C → List (AnswerRun C) → List (AnswerRun C)
  apply (create_run now i owner request r x d) rows =
      (create (new_run now i owner request r x d) rows).1
  apply (call_one now i call) rows = (call_run now i call rows).1
  apply (sweep now stale_before limit) rows = (fail_stale now stale_before limit rows).1

  abbrev pub apply_all : List (Op C) → List (AnswerRun C) → List (AnswerRun C)
  apply_all [] rows = rows
  apply_all (op ∷ ops) rows = apply_all ops (apply op rows)

  pub run_id-call_row :
      (now : ℕ) (call : Call C) (row row' : AnswerRun C)
      → call_row now call row ≡ ok row'
      → row'.run_id ≡ row.run_id
  unfolding call_row
  run_id-call_row now (begin_phase previous phase) row row' e = ground (arith, e)
  run_id-call_row now (record_retrieval d ids n x) row row' e = ground (arith, e)
  run_id-call_row now (record_generation d answer) row row' e = ground (arith, e)
  run_id-call_row now (complete_run d c u i response) row row' e = ground (arith, e)
  run_id-call_row now (fail phase d code) row row' e = ground (arith, e)

  -- A method on a run that is over raises, or changes nothing.
  closed_call :
      (now : ℕ) (call : Call C) (row row' : AnswerRun C)
      → is_running row.status ≡ false
      → call_row now call row ≡ ok row'
      → row ≡ row'
  unfolding call_row
  closed_call now (begin_phase previous phase) row row' c e = absurd (ground (arith, c, e))
  closed_call now (record_retrieval d ids n x) row row' c e = absurd (ground (arith, c, e))
  closed_call now (record_generation d answer) row row' c e = absurd (ground (arith, c, e))
  closed_call now (complete_run d cf u i response) row row' c e = absurd (ground (arith, c, e))
  closed_call now (fail phase d code) row row' c e = ground (arith, c, e)

  -- A call leaves the table alone, or writes one row as the method says.
  call_cases :
      (now : ℕ) (i : String) (call : Call C) (rows : List (AnswerRun C))
      → ((call_run now i call rows).1 ≡ rows)
        ⊎ ((row : AnswerRun C) × (row' : AnswerRun C) × (get_row i rows ≡ some row)
            × (call_row now call row ≡ ok row')
            × ((call_run now i call rows).1 ≡ write_row (λ r. r.run_id) i (λ _. row') rows))
  unfolding call_run
  call_cases now i call rows = go (get_row i rows) refl
    where
      of_result :
          (row : AnswerRun C) (r : Result (AnswerRun C))
          → get_row i rows ≡ some row
          → call_row now call row ≡ r
          → ((after_call i r rows).1 ≡ rows)
            ⊎ ((row : AnswerRun C) × (row' : AnswerRun C) × (get_row i rows ≡ some row)
                × (call_row now call row ≡ ok row')
                × ((after_call i r rows).1 ≡ write_row (λ r. r.run_id) i (λ _. row') rows))
      of_result row (ok row') found e = inr (row, row', found, e, refl)
      of_result row invalid_run_transition found e = inl refl
      of_result row lookup_error found e = inl refl

      go :
          (o : Option (AnswerRun C))
          → get_row i rows ≡ o
          → ((after_call i (on_row now call o) rows).1 ≡ rows)
            ⊎ ((row : AnswerRun C) × (row' : AnswerRun C) × (get_row i rows ≡ some row)
                × (call_row now call row ≡ ok row')
                × ((after_call i (on_row now call o) rows).1
                    ≡ write_row (λ r. r.run_id) i (λ _. row') rows))
      go none found = inl refl
      go (some row) found = of_result row (call_row now call row) found refl

  pub get-write :
      (i j : String) (row row' : AnswerRun C) (rows : List (AnswerRun C))
      → get_row i rows ≡ some row
      → row'.run_id ≡ row.run_id
      → get_row j (write_row (λ r. r.run_id) i (λ _. row') rows)
        ≡ (if i == j then some row' else get_row j rows)
  unfolding get_row
  get-write i j row row' rows found same =
      let key : row.run_id ≡ i = key-find_row (λ (r : AnswerRun C). r.run_id) i rows found in
      elim (Bool-cases (i == j)) [
        | inl e ↦
            let here : find_row (λ (r : AnswerRun C). r.run_id) j rows ≡ some row =
              subst (λ k. find_row (λ (r : AnswerRun C). r.run_id) k rows ≡ some row)
                ((eq_iff i j).0 e) found in
            cc (
              find_row-write_row (λ (r : AnswerRun C). r.run_id) i j (λ _. row') rows
                  (λ r h. same ∙ key),
              e,
              here,
            )
        | inr e ↦ cc (
          find_row-write_row (λ (r : AnswerRun C). r.run_id) i j (λ _. row') rows
              (λ r h. same ∙ key),
          e,
        )
      ]

  get-sweep :
      (now stale_before limit : ℕ) (j : String) (rows : List (AnswerRun C))
      → get_row j (fail_stale now stale_before limit rows).1
        ≡ Option.map
            (fail_if_stale now stale_before (stale_ids stale_before limit rows))
            (get_row j rows)
  unfolding fail_stale get_row
  get-sweep now stale_before limit j rows =
      find_row-map (λ (r : AnswerRun C). r.run_id) j
        (fail_if_stale now stale_before (stale_ids stale_before limit rows)) rows
        (λ r. ground arith)

  create_cases :
      (row : AnswerRun C) (rows : List (AnswerRun C))
      → ((create row rows).1 ≡ rows) ⊎ ((create row rows).1 ≡ rows ++ (row ∷ []))
  unfolding create
  create_cases row rows = elim (Option-cases (find_request row.owner_id row.request_id rows)) [
    | inl e ↦ inr (rw (create, e) refl)
    | inr (existing, e) ↦ inl (rw (create, e) refl)
  ]

  -- One step leaves a run that is over as it is.
  over_stays :
      (op : Op C) (i : String) (rows : List (AnswerRun C)) (row : AnswerRun C)
      → is_running row.status ≡ false
      → get_row i rows ≡ some row
      → get_row i (apply op rows) ≡ some row
  unfolding get_row
  over_stays (create_run now j owner request r x d) i rows row over found =
      elim (create_cases (new_run now j owner request r x d) rows) [
        | inl e ↦ ap (get_row i) e ∙ found
        | inr e ↦ ap (get_row i) e ∙ find_row-append_some (λ r. r.run_id) i rows _ found
      ]
  over_stays (call_one now j call) i rows row over found = elim (call_cases now j call rows) [
    | inl e ↦ ap (get_row i) e ∙ found
    | inr (old, new, at, called, e) ↦
        let written = get-write j i old new rows at (run_id-call_row now call old new called) in
        elim (Bool-cases (j == i)) [
          | inl same ↦
              let is_it : some old ≡ some row = cc (found, at, (eq_iff j i).0 same) in
              let kept : old ≡ new =
                closed_call now call old new (ground (arith, is_it, over)) called in
              cc (e, written, same, kept, is_it)
          | inr other ↦ cc (e, written, other, found)
        ]
  ]
  over_stays (sweep now before limit) i rows row over found =
      get-sweep now before limit i rows ∙ ap (Option.map _) found ∙ ground (arith, over)

  -- A run that is completed or failed stays exactly as it is, whatever creations, method calls and
  -- sweeps of stale runs follow.
  pub finished_stays :
      (ops : List (Op C)) (i : String) (rows : List (AnswerRun C)) (row : AnswerRun C)
      → get_row i rows ≡ some row
      → is_running row.status ≡ false
      → get_row i (apply_all ops rows) ≡ some row
  finished_stays [] i rows row found over = found
  finished_stays (op ∷ ops) i rows row found over =
      finished_stays ops i (apply op rows) row (over_stays op i rows row over found) over

  new_run-IsSound :
      (now : ℕ) (i : String) (owner : ℕ) (request : String) (r : C.Request) (x : C.Execution)
      (d : ℤ)
      → IsSound (new_run {C = C} now i owner request r x d)
  new_run-IsSound now i owner request r x d = record {
    running_open = λ e. (refl, refl, refl, refl);
    completed_closed = λ e. absurd (ground (arith, e));
    failed_closed = λ e. absurd (ground (arith, e));
  }

  swept-IsSound :
      (now before : ℕ) (ids : List String) (row : AnswerRun C)
      → IsSound row
      → IsSound (fail_if_stale now before ids row)
  swept-IsSound now before ids row s =
      elim (Bool-cases (is_stale before row && some_of (λ i. i == row.run_id) ids)) [
        | inl e ↦
            let run : row.status ≡ running = was_running row (ground (arith, e)) in
            let shape : stale_row now row ≡ fail_if_stale now before ids row = ground (arith, e) in
            subst IsSound shape (failed-IsSound row (stale_row now row) s run refl refl refl refl)
        | inr e ↦
            let shape : row ≡ fail_if_stale now before ids row = ground (arith, e) in
            subst IsSound shape s
      ]

  step-IsSound :
      (op : Op C) (rows : List (AnswerRun C))
      → ((i : String) (row : AnswerRun C) → get_row i rows ≡ some row → IsSound row)
      → (i : String) (row : AnswerRun C) → get_row i (apply op rows) ≡ some row
      → IsSound row
  unfolding get_row
  step-IsSound (create_run now j owner request r x d) rows all i row found =
      elim (create_cases (new_run now j owner request r x d) rows) [
        | inl e ↦ all i row (sym (ap (get_row i) e) ∙ found)
        | inr e ↦ elim (Option-cases (get_row i rows)) [
          | inl absent ↦
              let there =
                find_row-append (λ (r : AnswerRun C). r.run_id) i rows
                  (new_run now j owner request r x d) absent in
              let is_new : new_run now j owner request r x d ≡ row =
                ground (arith, e, there, found) in
              subst IsSound is_new (new_run-IsSound now j owner request r x d)
          | inr (old, at) ↦
              let there = find_row-append_some (λ (r : AnswerRun C). r.run_id) i rows _ at in
              all i row (at ∙ sym there ∙ sym (ap (get_row i) e) ∙ found)
        ]
      ]
  step-IsSound (call_one now j call) rows all i row found = elim (call_cases now j call rows) [
    | inl e ↦ all i row (sym (ap (get_row i) e) ∙ found)
    | inr (old, new, at, called, e) ↦
        let written = get-write j i old new rows at (run_id-call_row now call old new called) in
        elim (Bool-cases (j == i)) [
          | inl same ↦
              let is_new : some new ≡ some row = cc (e, written, same, found) in
              subst IsSound (ground (arith, is_new))
                (call_row-IsSound now call old new (all j old at) called)
          | inr other ↦ all i row (cc (e, written, other, found))
        ]
  ]
  step-IsSound (sweep now before limit) rows all i row found =
      elim (Option-cases (get_row i rows)) [
        | inl absent ↦ absurd (cc (get-sweep now before limit i rows, absent, found))
        | inr (old, at) ↦
            let is_new : some (fail_if_stale now before (stale_ids before limit rows) old)
                ≡ some row =
              cc (get-sweep now before limit i rows, at, found) in
            subst IsSound (ground (arith, is_new))
              (swept-IsSound now before (stale_ids before limit rows) old (all i old at))
      ]

  -- Every run of a table that started empty is sound, whatever creations, method calls and sweeps of
  -- stale runs led to it: a running run has no response, no error and no end, a completed one has its
  -- response and no error, a failed one its error code and no response.
  pub apply_all-IsSound :
      (ops : List (Op C)) (i : String) (row : AnswerRun C)
      → get_row i (apply_all ops []) ≡ some row
      → IsSound row
  unfolding get_row find_row
  apply_all-IsSound ops i row found = go ops [] (λ j r e. absurd (ground (arith, e))) i row found
    where
      go :
          (ops : List (Op C)) (rows : List (AnswerRun C))
          → ((i : String) (row : AnswerRun C) → get_row i rows ≡ some row → IsSound row)
          → (i : String) (row : AnswerRun C) → get_row i (apply_all ops rows) ≡ some row
          → IsSound row
      go [] rows all i row found = all i row found
      go (op ∷ ops) rows all i row found =
          go ops (apply op rows) (step-IsSound op rows all) i row found
