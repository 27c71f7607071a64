-- ===== src/RunStore/Memory.antt =====
-- The methods of `AgentRunStore` with the backend "memory": each holds the store's lock from its
-- first read to its last write, or is one statement on a dict, so each is one step. A dict is a function of its key, and a
-- `defaultdict(deque)` the list that is empty where no deque is stored. `now` is `time.monotonic()`.
use reminder.Prelude.{
  ℕ, ◌+◌, String, Bool, true, false, ◌&&◌, not, Option, none, some, List, [], ◌∷◌, ◌++◌, ltb, ◌==◌,
  if◌then◌else◌,
}
use reminder.RunStore.Record.{aborting, is_terminal, AgentRunRecord}

-- d[k] = v
abbrev pub put {ℓ} : {V : Type ℓ} → (String → V) → String → V → String → V
put d k v j = if k == j then v else d j

-- deque.remove(x): the first occurrence; its ValueError, caught by the callers, changes nothing.
unfoldable pub remove_first : String → List String → List String
remove_first x [] = []
remove_first x (y ∷ ys) = let rest = remove_first x ys in if y == x then ys else y ∷ rest

pub record Lease : Type 0 where
  pub token : String
  pub expires_at : ℕ

pub record MemoryStore (B : Type 0) : Type 0 where
  pub records : String → Option (AgentRunRecord B)
  pub aborts : String → Bool
  pub request_runs : String → Option String
  pub session_queues : String → List String
  pub session_leases : String → Option Lease

abbrev pub empty : {B : Type 0} → MemoryStore B
empty = record {
  records = λ run_id. none;
  aborts = λ run_id. false;
  request_runs = λ key. none;
  session_queues = λ session_id. [];
  session_leases = λ session_id. none;
}

-- `_request_key`, built on hashlib's digest.
pub record Hashing : Type 0 where
  pub request_key : (user_id : ℕ) → (session_id client_request_id : String) → String

abbrev pub is_head : String → List String → Bool
is_head run_id [] = false
is_head run_id (head ∷ rest) = head == run_id

-- `current and current[1] > now and current[0] != lease_token`
abbrev pub is_taken : (now : ℕ) → (lease_token : String) → Option Lease → Bool
is_taken now lease_token none = false
is_taken now lease_token (some current) =
    ltb now current.expires_at && not (current.token == lease_token)

-- `not current or current[0] != lease_token`
abbrev pub is_owner : (lease_token : String) → Option Lease → Bool
is_owner lease_token none = false
is_owner lease_token (some current) = current.token == lease_token

-- `current and current[0] != lease_token`
abbrev pub is_foreign : (lease_token : String) → Option Lease → Bool
is_foreign lease_token none = false
is_foreign lease_token (some current) = not (current.token == lease_token)

module _ {B : Type 0} where
  -- The writes for a new run.
  unfoldable pub add_run :
      (key : String) → AgentRunRecord B → MemoryStore B → (AgentRunRecord B × Bool) × MemoryStore B
  add_run key run s = (
    (run, true),
    record s {
      records = put s.records run.run_id (some run);
      request_runs = put s.request_runs key (some run.run_id);
      session_queues =
          put s.session_queues run.session_id
            (s.session_queues run.session_id ++ (run.run_id ∷ []));
    },
  )

  unfoldable pub create_or_get_and_enqueue :
      Hashing → AgentRunRecord B → MemoryStore B → (AgentRunRecord B × Bool) × MemoryStore B
  create_or_get_and_enqueue hashing run s =
      let key = hashing.request_key run.user_id run.session_id run.client_request_id in
      elim (s.request_runs key) [
        | none ↦ add_run key run s
        | some existing_run_id ↦ elim (s.records existing_run_id) [
          | none ↦ add_run key run s
          | some existing ↦ ((existing, false), s)
        ]
      ]

  unfoldable pub claim_session_turn :
      (lease_seconds now : ℕ)
      → (session_id run_id lease_token : String) → MemoryStore B
      → Bool × MemoryStore B
  claim_session_turn lease_seconds now session_id run_id lease_token s =
      if not (is_head run_id (s.session_queues session_id))
      then (false, s)
      else if is_taken now lease_token (s.session_leases session_id)
      then (false, s)
      else (
        true,
        record s {
          session_leases =
              put s.session_leases session_id
                (some (record { token = lease_token; expires_at = now + lease_seconds }));
        },
      )

  unfoldable pub enqueue_session_turn :
      (session_id ticket_id : String) → MemoryStore B → MemoryStore B
  enqueue_session_turn session_id ticket_id s = record s {
    session_queues =
        put s.session_queues session_id (s.session_queues session_id ++ (ticket_id ∷ []));
  }

  unfoldable pub renew_session_lease :
      (lease_seconds now : ℕ)
      → (session_id lease_token : String) → MemoryStore B
      → Bool × MemoryStore B
  renew_session_lease lease_seconds now session_id lease_token s =
      if is_owner lease_token (s.session_leases session_id)
      then (
        true,
        record s {
          session_leases =
              put s.session_leases session_id
                (some (record { token = lease_token; expires_at = now + lease_seconds }));
        },
      )
      else (false, s)

  unfoldable pub release_session_turn :
      (session_id run_id lease_token : String) → MemoryStore B → MemoryStore B
  unfolding remove_first
  release_session_turn session_id run_id lease_token s =
      if is_foreign lease_token (s.session_leases session_id) then s else record s {
        session_leases = put s.session_leases session_id none;
        session_queues =
            put s.session_queues session_id (remove_first run_id (s.session_queues session_id));
      }

  unfoldable pub remove_from_session_queue :
      (session_id run_id : String) → MemoryStore B → MemoryStore B
  unfolding remove_first
  remove_from_session_queue session_id run_id s = record s {
    session_queues =
        put s.session_queues session_id (remove_first run_id (s.session_queues session_id));
  }

  unfoldable pub get : String → MemoryStore B → Option (AgentRunRecord B)
  get run_id s = s.records run_id

  unfoldable pub save : AgentRunRecord B → MemoryStore B → MemoryStore B
  save run s = record s { records = put s.records run.run_id (some run) }

  unfoldable pub request_abort : String → MemoryStore B → MemoryStore B
  request_abort run_id s = record s { aborts = put s.aborts run_id true }

  unfoldable pub transition_to_aborting :
      String → MemoryStore B → Option (AgentRunRecord B) × MemoryStore B
  unfolding is_terminal
  transition_to_aborting run_id s = elim (s.records run_id) [
    | none ↦ (none, s)
    | some run ↦ if is_terminal run.status then (some run, s) else (
      some (record run { status = aborting }),
      record s {
        records = put s.records run_id (some (record run { status = aborting }));
        aborts = put s.aborts run_id true;
      },
    )
  ]

  unfoldable pub is_abort_requested : String → MemoryStore B → Bool
  is_abort_requested run_id s = s.aborts run_id
