-- ===== src/RunStore/Turns.antt =====
-- The order of turns in a session, the identity of requests, and the intent to abort.
use reminder.Prelude.{
  ℕ, String, ◌≡◌, refl, ◌⊎◌, inl, inr, true, false, none, some, List, [], ◌∷◌, ◌==◌, if◌then◌else◌,
  eq_iff, eq_refl, arith, Bool-cases,
}
use reminder.RunStore.Record.{aborting, is_terminal, AgentRunRecord}
use reminder.RunStore.Memory.{
  MemoryStore, Hashing, put, is_head, is_foreign, add_run, create_or_get_and_enqueue,
  claim_session_turn, release_session_turn, transition_to_aborting, get, is_abort_requested,
}

head_of :
    (run : String) (queue : List String)
    → is_head run queue ≡ true
    → (rest : List String) × (queue ≡ run ∷ rest)
head_of run [] e = cc
head_of run (x ∷ xs) e = (xs, ground (arith, eq_iff x run))

module _ {B : Type 0} where
  -- Only the run at the head of a session's queue gets its turn.
  pub claim_head :
      (lease_seconds now : ℕ) (session run token : String) (s : MemoryStore B)
      → (claim_session_turn lease_seconds now session run token s).0 ≡ true
      → (rest : List String) × (s.session_queues session ≡ run ∷ rest)
  unfolding claim_session_turn
  claim_head lease_seconds now session run token s e =
      elim (Bool-cases (is_head run (s.session_queues session))) [
        | inl f ↦ head_of run (s.session_queues session) f
        | inr f ↦ absurd (cc (rw f at e))
      ]

  claim_free :
      (lease_seconds now : ℕ) (session run token : String) (s : MemoryStore B) (rest : List String)
      → s.session_queues session ≡ run ∷ rest
      → s.session_leases session ≡ none
      → (claim_session_turn lease_seconds now session run token s).0 ≡ true
  unfolding claim_session_turn
  claim_free lease_seconds now session run token s rest q l = simp (q, l, eq_refl)

  release_lem :
      (session run token : String) (s : MemoryStore B) (rest : List String)
      → s.session_queues session ≡ run ∷ rest
      → is_foreign token (s.session_leases session) ≡ false
      → ((release_session_turn session run token s).session_leases session ≡ none)
        × ((release_session_turn session run token s).session_queues session ≡ rest)
  unfolding release_session_turn
  release_lem session run token s rest q f =
      (rw (f, eq_refl session), rw (f, eq_refl session, q, eq_refl run))

  -- A worker that releases its turn hands it on: the lease is gone, the queue is the rest, and the
  -- run that stands next in it gets the turn at once, whatever its token.
  pub release_hands_on :
      (lease_seconds now : ℕ) (session run token next token' : String) (s : MemoryStore B)
      (rest : List String)
      → s.session_queues session ≡ run ∷ next ∷ rest
      → is_foreign token (s.session_leases session) ≡ false
      → ((release_session_turn session run token s).session_leases session ≡ none)
        × ((release_session_turn session run token s).session_queues session ≡ next ∷ rest)
        × ((claim_session_turn lease_seconds now session next token'
              (release_session_turn session run token s)).0
            ≡ true)
  release_hands_on lease_seconds now session run token next token' s rest q f =
      let freed = release_lem session run token s (next ∷ rest) q f in
      (
        freed.0,
        freed.1,
        claim_free lease_seconds now session next token' (release_session_turn session run token s)
            rest freed.1 freed.0,
      )

  module _ (hashing : Hashing) where
    abbrev key_of : AgentRunRecord B → String
    key_of run = hashing.request_key run.user_id run.session_id run.client_request_id

    create_found :
        (run : AgentRunRecord B) (s : MemoryStore B) (run_id : String) (existing : AgentRunRecord B)
        → s.request_runs (key_of run) ≡ some run_id
        → s.records run_id ≡ some existing
        → create_or_get_and_enqueue hashing run s ≡ ((existing, false), s)
    unfolding create_or_get_and_enqueue
    create_found run s run_id existing e f = ground (arith, e, f)

    added :
        (run : AgentRunRecord B) (s : MemoryStore B)
        → ((add_run (key_of run) run s).1.request_runs (key_of run) ≡ some run.run_id)
          × ((add_run (key_of run) run s).1.records run.run_id ≡ some run)
    unfolding add_run
    added run s = (rw eq_refl, rw eq_refl)

    create_new :
        (run : AgentRunRecord B) (s : MemoryStore B)
        → (create_or_get_and_enqueue hashing run s).0.1 ≡ true
        → create_or_get_and_enqueue hashing run s ≡ add_run (key_of run) run s
    unfolding create_or_get_and_enqueue add_run
    create_new run s new = ground arith

    -- The same client request creates one run: the second call gets the first one's record, is told
    -- that it created nothing, and leaves the store, the session's queue included, as it was.
    pub create_again :
        (run run' : AgentRunRecord B) (s : MemoryStore B)
        → key_of run' ≡ key_of run
        → (create_or_get_and_enqueue hashing run s).0.1 ≡ true
        → create_or_get_and_enqueue hashing run' (create_or_get_and_enqueue hashing run s).1
          ≡ ((run, false), (create_or_get_and_enqueue hashing run s).1)
    create_again run run' s same new = rw (create_new run s new) (
        create_found run' (add_run (key_of run) run s).1 run.run_id run (rw same (added run s).0)
          (added run s).1)

  abort_over :
      (run_id : String) (s : MemoryStore B) (run : AgentRunRecord B)
      → s.records run_id ≡ some run
      → is_terminal run.status ≡ true
      → transition_to_aborting run_id s ≡ (some run, s)
  unfolding transition_to_aborting
  abort_over run_id s run e t = ground (arith, e, t)

  abort_live :
      (run_id : String) (s : MemoryStore B) (run : AgentRunRecord B)
      → s.records run_id ≡ some run
      → is_terminal run.status ≡ false
      → transition_to_aborting run_id s ≡ (
        some (record run { status = aborting }),
        record s {
          records = put s.records run_id (some (record run { status = aborting }));
          aborts = put s.aborts run_id true;
        },
      )
  unfolding transition_to_aborting
  abort_live run_id s run e t = ground (arith, e, t)

  -- An abort never reopens a run that is over: it leaves the store as it was. Of a run that is not
  -- over it sets the status to aborting and the flag, and changes no other run.
  pub abort_lem :
      (run_id : String) (s : MemoryStore B) (run : AgentRunRecord B)
      → get run_id s ≡ some run
      → ((is_terminal run.status ≡ true) × (transition_to_aborting run_id s ≡ (some run, s)))
        ⊎ ((is_terminal run.status ≡ false)
            × (get run_id (transition_to_aborting run_id s).1
                ≡ some (record run { status = aborting }))
            × (is_abort_requested run_id (transition_to_aborting run_id s).1 ≡ true)
            × ((j : String)
                → get j (transition_to_aborting run_id s).1
                  ≡ (if run_id == j then some (record run { status = aborting }) else get j s)))
  unfolding get is_abort_requested
  abort_lem run_id s run e = elim (Bool-cases (is_terminal run.status)) [
    | inl t ↦ inl (t, abort_over run_id s run e t)
    | inr t ↦
        let live = abort_live run_id s run e t in
        inr (t, rw live (rw eq_refl), rw live (rw eq_refl), λ j. rw live refl)
  ]
