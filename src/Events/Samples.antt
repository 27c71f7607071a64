-- ===== src/Events/Samples.antt =====
-- A run with one event, and the theorem at two appends to it.
use reminder.Prelude.{ℕ, String, ◌≡◌, refl, arith, [], ◌∷◌, ◌++◌, some, find_row}
use reminder.Events.Table.{
  AgentEvent, DurableAgentRun, Tables, get_run, list_durable_runtime_events,
}
use reminder.Events.Cursor.{append_all, list-append_all}

abbrev event_of : String → ℕ → String → AgentEvent String
event_of run_id sequence body = record { run_id = run_id; sequence = sequence; body = body }

abbrev the_run : DurableAgentRun
the_run = record { run_id = "r1"; last_event_sequence = 1 }

abbrev tables : Tables String
tables = record {
  runs = the_run ∷ [];
  events =
      record { run_id = "r1"; sequence = 1; payload = event_of "r1" 1 "started" }
      ∷ record { run_id = "r2"; sequence = 9; payload = event_of "r2" 9 "other" }
      ∷ [];
}

run_found : get_run "r1" tables ≡ some the_run
unfolding get_run find_row
run_found = refl

list-append_all_example :
    list_durable_runtime_events "r1" 1
      (append_all "r1" (event_of "" 0 "token" ∷ event_of "" 0 "done" ∷ []) tables)
    ≡ (list_durable_runtime_events "r1" 1 tables
        ++ (event_of "r1" 2 "token" ∷ event_of "r1" 3 "done" ∷ []))
list-append_all_example =
    list-append_all "r1" 1 (event_of "" 0 "token" ∷ event_of "" 0 "done" ∷ []) tables the_run
      run_found (omega arith) (λ e. omega arith, (λ e. cc, tt))
