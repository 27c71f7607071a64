-- ===== src/Events/Cursor.antt =====
-- What a reader with a cursor is given behind appends.
use mathlib.Core.List.{append_assoc, append-nil}
use reminder.Prelude.{
  ℕ, ◌+◌, ◌≤◌, String, ◌≡◌, refl, sym, ap, ◌∙◌, Bool, true, false, some, List, [], ◌∷◌, ◌++◌, map,
  ◌==◌, if◌then◌else◌, eq_refl, arith, find_row-write_row, keep, sort_by, insert_by, All, ok,
}
use reminder.Events.Table.{
  AgentEvent, DurableAgentRun, AgentRuntimeEvent, Tables, get_run, with_delivery, store_event,
  append_durable_runtime_event, read_event, is_after, list_durable_runtime_events,
}

module _ {A : Type 0} (rank : A → ℕ) where
  insert_by-append :
      (x m : A) (xs : List A)
      → rank x ≤ rank m
      → insert_by rank x (xs ++ (m ∷ [])) ≡ insert_by rank x xs ++ (m ∷ [])
  unfolding insert_by
  insert_by-append x m [] le = ground (arith, le)
  insert_by-append x m (y ∷ xs) le = ground (arith, insert_by-append x m xs le)

  -- A row at or above all others is sorted behind them.
  sort_by-append :
      (m : A) (xs : List A)
      → All (λ x. rank x ≤ rank m) xs
      → sort_by rank (xs ++ (m ∷ [])) ≡ sort_by rank xs ++ (m ∷ [])
  unfolding sort_by
  sort_by-append m [] h = refl
  sort_by-append m (x ∷ xs) h =
      ap (insert_by rank x) (sort_by-append m xs h.1) ∙ insert_by-append x m (sort_by rank xs) h.0

keep-append :
    {A : Type 0} (p : A → Bool) (xs ys : List A) → keep p (xs ++ ys) ≡ keep p xs ++ keep p ys
keep-append p [] ys = refl
keep-append p (x ∷ xs) ys = ground (arith, keep-append p xs ys)

map-append_one :
    {A C : Type 0} (f : A → C) (xs : List A) (y : A)
    → map f (xs ++ (y ∷ [])) ≡ map f xs ++ (f y ∷ [])
map-append_one f [] y = refl
map-append_one f (x ∷ xs) y = ap (λ t. f x ∷ t) (map-append_one f xs y)

All-if :
    {A : Type 0} (Q : A → Type 0) (b : Bool) (x : A) (xs : List A)
    → (b ≡ true → Q x)
    → All Q xs
    → All Q (if b then x ∷ xs else xs)
All-if Q true x xs h hs = (h refl, hs)
All-if Q false x xs h hs = hs

module _ {B : Type 0} where
  same_run :
      (run_id : String) (after : ℕ) (row : AgentRuntimeEvent B)
      → is_after run_id after row ≡ true
      → (row.run_id == run_id) ≡ true
  same_run run_id after row e = ground (arith, e)

  -- The events of a run are numbered up to its row's last number.
  abbrev pub IsNumbered : String → ℕ → List (AgentRuntimeEvent B) → Type 0
  IsNumbered run_id last rows =
      All (λ (row : AgentRuntimeEvent B). (row.run_id == run_id) ≡ true → row.sequence ≤ last) rows

  All-is_after :
      (run_id : String) (after last : ℕ) (rows : List (AgentRuntimeEvent B))
      → IsNumbered run_id last rows
      → All
          (λ (row : AgentRuntimeEvent B). row.sequence ≤ last + 1)
          (keep (is_after run_id after) rows)
  All-is_after run_id after last [] h = tt
  All-is_after run_id after last (row ∷ rows) h =
      All-if _ (is_after run_id after row) row (keep (is_after run_id after) rows)
        (λ e. omega (arith, h.0 (same_run run_id after row e)))
        (All-is_after run_id after last rows h.1)

  IsNumbered-append :
      (run_id : String) (last : ℕ) (rows : List (AgentRuntimeEvent B)) (event : AgentEvent B)
      → IsNumbered run_id last rows
      → IsNumbered run_id
          (last + 1)
          (rows ++ (record { run_id = run_id; sequence = last + 1; payload = event } ∷ []))
  IsNumbered-append run_id last [] event h = (λ e. omega arith, tt)
  IsNumbered-append run_id last (row ∷ rows) event h =
      (λ e. omega (arith, h.0 e), IsNumbered-append run_id last rows event h.1)

  -- The appends of a list of events, each of which finds the run.
  abbrev pub append_all : String → List (AgentEvent B) → Tables B → Tables B
  append_all run_id [] s = s
  append_all run_id (event ∷ events) s =
      append_all run_id events (append_durable_runtime_event run_id event s).1

  -- The events with the numbers from `n` on.
  abbrev pub numbered : String → (n : ℕ) → List (AgentEvent B) → List (AgentEvent B)
  numbered run_id n [] = []
  numbered run_id n (event ∷ events) = with_delivery run_id n event ∷ numbered run_id (n + 1) events

  append_found :
      (run_id : String) (event : AgentEvent B) (s : Tables B) (run : DurableAgentRun)
      → get_run run_id s ≡ some run
      → append_durable_runtime_event run_id event s ≡ (
        ok (with_delivery run_id (run.last_event_sequence + 1) event),
        store_event run_id (run.last_event_sequence + 1) event s,
      )
  unfolding append_durable_runtime_event
  append_found run_id event s run e = rw (append_durable_runtime_event, e) refl

  get_run-store :
      (run_id : String) (n : ℕ) (event : AgentEvent B) (s : Tables B) (run : DurableAgentRun)
      → get_run run_id s ≡ some run
      → get_run run_id (store_event run_id n event s)
        ≡ some (record run { last_event_sequence = n })
  unfolding get_run
  get_run-store run_id n event s run e = cc (
    find_row-write_row (λ (run : DurableAgentRun). run.run_id) run_id run_id
        (λ run. record run { last_event_sequence = n }) s.runs (λ r h. h),
    eq_refl run_id,
    e,
  )

  list-store :
      (run_id : String) (after last : ℕ) (event : AgentEvent B) (s : Tables B)
      → after ≤ last
      → IsNumbered run_id last s.events
      → list_durable_runtime_events run_id after (store_event run_id (last + 1) event s)
        ≡ list_durable_runtime_events run_id after s ++ (with_delivery run_id (last + 1) event ∷ [])
  unfolding list_durable_runtime_events
  list-store run_id after last event s le numbered_rows =
      let row : AgentRuntimeEvent B = record {
        run_id = run_id;
        sequence = last + 1;
        payload = with_delivery run_id (last + 1) event;
      } in
      let kept = keep (is_after run_id after) s.events in
      let rank = λ (row : AgentRuntimeEvent B). row.sequence in
      let new_kept : keep (is_after run_id after) (row ∷ []) ≡ (row ∷ []) =
        ground (arith, eq_refl run_id, le) in
      let read_new : read_event run_id row ≡ with_delivery run_id (last + 1) event = ground arith in
      ap (λ t. map (read_event run_id) (sort_by rank t))
        (keep-append (is_after run_id after) s.events (row ∷ []) ∙ ap (λ t. kept ++ t) new_kept)
      ∙ ap (map (read_event run_id))
          (sort_by-append rank row kept (All-is_after run_id after last s.events numbered_rows))
      ∙ map-append_one (read_event run_id) (sort_by rank kept) row
      ∙ ap (λ t. map (read_event run_id) (sort_by rank kept) ++ (t ∷ [])) read_new

  -- A reader that asks for what follows a number up to the run's last one is given, behind any
  -- appends to the run, what it would have been given before them and then the appended events, in
  -- the order of the appends and numbered on from the last one, without a gap.
  pub list-append_all :
      (run_id : String) (after : ℕ) (events : List (AgentEvent B)) (s : Tables B)
      (run : DurableAgentRun)
      → get_run run_id s ≡ some run
      → after ≤ run.last_event_sequence
      → IsNumbered run_id run.last_event_sequence s.events
      → list_durable_runtime_events run_id after (append_all run_id events s)
        ≡ list_durable_runtime_events run_id after s
          ++ numbered run_id (run.last_event_sequence + 1) events
  list-append_all run_id after [] s run found le numbered_rows =
      sym (append-nil (list_durable_runtime_events run_id after s))
  list-append_all run_id after (event ∷ events) s run found le numbered_rows =
      let last = run.last_event_sequence in
      ap (λ r. list_durable_runtime_events run_id after (append_all run_id events r.1))
        (append_found run_id event s run found)
      ∙ list-append_all run_id after events (store_event run_id (last + 1) event s)
          (record run { last_event_sequence = last + 1 })
          (get_run-store run_id (last + 1) event s run found) (omega (arith, le))
          (IsNumbered-append run_id last s.events (with_delivery run_id (last + 1) event)
            numbered_rows)
      ∙ ap (λ t. t ++ numbered run_id (last + 1 + 1) events)
          (list-store run_id after last event s le numbered_rows)
      ∙ append_assoc (list_durable_runtime_events run_id after s)
          (with_delivery run_id (last + 1) event ∷ []) (numbered run_id (last + 1 + 1) events)
