-- ===== src/Events/Table.antt =====
-- `append_durable_runtime_event` and `list_durable_runtime_events`. Of the rows of both tables the
-- columns that these functions write and read back are modelled; the columns that copy an event's
-- metadata and the time stamps are left out. `B` is the type of what an event says. An event stored as
-- JSON is taken to be read back as it was.
use reminder.Prelude.{
  ℕ, ◌+◌, String, Bool, ◌&&◌, Option, none, some, List, [], ◌∷◌, ◌++◌, map, ltb, eqb, ◌==◌,
  if◌then◌else◌, Outcome, ok, raised, find_row, write_row, keep, sort_by,
}

pub record AgentEvent (B : Type 0) : Type 0 where
  pub run_id : String
  pub sequence : ℕ
  pub body : B

pub record DurableAgentRun : Type 0 where
  pub run_id : String
  pub last_event_sequence : ℕ

pub record AgentRuntimeEvent (B : Type 0) : Type 0 where
  pub run_id : String
  pub sequence : ℕ
  pub payload : AgentEvent B

pub record Tables (B : Type 0) : Type 0 where
  pub runs : List DurableAgentRun
  pub events : List (AgentRuntimeEvent B)

module _ {B : Type 0} where
  unfoldable pub get_run : String → Tables B → Option DurableAgentRun
  unfolding find_row
  get_run run_id s = find_row (λ run. run.run_id) run_id s.runs

  -- `AgentEvent.with_delivery`
  abbrev pub with_delivery : String → ℕ → AgentEvent B → AgentEvent B
  with_delivery run_id sequence event = record event { run_id = run_id; sequence = sequence }

  abbrev pub store_event : String → ℕ → AgentEvent B → Tables B → Tables B
  store_event run_id sequence event s = record {
    runs =
        write_row (λ run. run.run_id) run_id (λ run. record run { last_event_sequence = sequence })
          s.runs;
    events =
        s.events
        ++ (record {
          run_id = run_id;
          sequence = sequence;
          payload = with_delivery run_id sequence event;
        }
            ∷ []);
  }

  -- The run's row is locked until the transaction ends. A RuntimeError has no code of its own: 0.
  unfoldable pub append_durable_runtime_event :
      String → AgentEvent B → Tables B → Outcome (AgentEvent B) × Tables B
  unfolding write_row
  append_durable_runtime_event run_id event s = elim (get_run run_id s) [
    | none ↦ (raised 0, s)
    | some run ↦ (
      ok (with_delivery run_id (run.last_event_sequence + 1) event),
      store_event run_id (run.last_event_sequence + 1) event s,
    )
  ]

  -- An event whose payload disagrees with its row is stamped with the row's run and number.
  abbrev pub read_event : String → AgentRuntimeEvent B → AgentEvent B
  read_event run_id row =
      if eqb row.payload.sequence row.sequence && (row.payload.run_id == run_id)
      then row.payload
      else record row.payload { run_id = run_id; sequence = row.sequence }

  abbrev pub is_after : String → (after_sequence : ℕ) → AgentRuntimeEvent B → Bool
  is_after run_id after_sequence row = (row.run_id == run_id) && ltb after_sequence row.sequence

  unfoldable pub list_durable_runtime_events :
      String → (after_sequence : ℕ) → Tables B → List (AgentEvent B)
  unfolding sort_by
  list_durable_runtime_events run_id after_sequence s =
      map (read_event run_id)
        (sort_by (λ row. row.sequence) (keep (is_after run_id after_sequence) s.events))
