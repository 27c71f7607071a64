-- ===== src/RunStore/Exclusion.antt =====
-- The session lease: while it runs, no other token gets the session's turn.
use reminder.Prelude.{
  ℕ, ◌+◌, ◌≤◌, ◌<◌, String, ◌≡◌, ◌≢◌, refl, ◌⊎◌, inl, inr, true, false, Bool-cases, Option, none,
  some, List, [], ◌∷◌, ◌==◌, eq_iff, eq_refl, arith,
}
use reminder.RunStore.Record.{AgentRunRecord}
use reminder.RunStore.Memory.{
  MemoryStore, Lease, Hashing, put, add_run, is_head, is_taken, is_owner, is_foreign,
  create_or_get_and_enqueue, claim_session_turn, enqueue_session_turn, renew_session_lease,
  release_session_turn, remove_from_session_queue, save, request_abort, transition_to_aborting,
}

-- A call of the store by some worker.
pub data Call (B : Type 0) : Type 0 where
  create_run : AgentRunRecord B → Call B
  claim : (session_id run_id lease_token : String) → Call B
  enqueue : (session_id ticket_id : String) → Call B
  renew : (session_id lease_token : String) → Call B
  release : (session_id run_id lease_token : String) → Call B
  dequeue : (session_id run_id : String) → Call B
  save_run : AgentRunRecord B → Call B
  abort : String → Call B
  start_abort : String → Call B

module _ {B : Type 0} (hashing : Hashing) (lease_seconds : ℕ) where
  unfoldable pub perform : (now : ℕ) → Call B → MemoryStore B → MemoryStore B
  perform now (create_run run) s = (create_or_get_and_enqueue hashing run s).1
  perform now (claim session run token) s =
      (claim_session_turn lease_seconds now session run token s).1
  perform now (enqueue session ticket) s = enqueue_session_turn session ticket s
  perform now (renew session token) s = (renew_session_lease lease_seconds now session token s).1
  perform now (release session run token) s = release_session_turn session run token s
  perform now (dequeue session run) s = remove_from_session_queue session run s
  perform now (save_run run) s = save run s
  perform now (abort run) s = request_abort run s
  perform now (start_abort run) s = (transition_to_aborting run s).1

  abbrev pub perform_all : List (ℕ × Call B) → MemoryStore B → MemoryStore B
  perform_all [] s = s
  perform_all ((now, call) ∷ calls) s = perform_all calls (perform now call s)

-- The lease belongs to `token` and runs until `until` at least.
abbrev pub IsHeld : (token : String) (until : ℕ) → Option Lease → Type 0
IsHeld token until none = ⊥
IsHeld token until (some lease) = (lease.token ≡ token) × (until ≤ lease.expires_at)

-- The call does not give the lease of `token` on `session` back.
abbrev pub KeepsLease : {B : Type 0} → (session token : String) → Call B → Type 0
KeepsLease session token (release session' run token') = (session' ≢ session) ⊎ (token' ≢ token)
KeepsLease session token _ = Unit

not_taken :
    (now until : ℕ) (token token' : String) (o : Option Lease)
    → IsHeld token until o
    → now < until
    → is_taken now token' o ≡ false
    → token' ≡ token
not_taken now until token token' none h lt e = absurd h
not_taken now until token token' (some lease) h lt e = ground (arith, eq_iff lease.token token')

taken :
    (now until : ℕ) (token token' : String) (o : Option Lease)
    → IsHeld token until o
    → now < until
    → token' ≢ token
    → is_taken now token' o ≡ true
taken now until token token' none h lt ne = absurd h
taken now until token token' (some lease) h lt ne = ground (arith, eq_iff lease.token token')

owner :
    (until : ℕ) (token token' : String) (o : Option Lease)
    → IsHeld token until o
    → is_owner token' o ≡ true
    → token' ≡ token
owner until token token' none h e = absurd h
owner until token token' (some lease) h e = ground (arith, eq_iff lease.token token')

foreign :
    (until : ℕ) (token token' : String) (o : Option Lease)
    → IsHeld token until o
    → is_foreign token' o ≡ false
    → token' ≡ token
foreign until token token' none h e = absurd h
foreign until token token' (some lease) h e = ground (arith, eq_iff lease.token token')

module _ {B : Type 0} (hashing : Hashing) (lease_seconds : ℕ) (session token : String)
    (until : ℕ) where
  abbrev Holds : MemoryStore B → Type 0
  Holds s = IsHeld token until (s.session_leases session)

  written :
      (session' token' : String) (at : ℕ) (s : MemoryStore B)
      → Holds s
      → (session' ≡ session → token' ≡ token)
      → until ≤ at
      → IsHeld token until (
          put s.session_leases session' (some (record { token = token'; expires_at = at })) session)
  written session' token' at s h same le = elim (Bool-cases (session' == session)) [
    | inl e ↦ rw e (same ((eq_iff session' session).0 e), le)
    | inr e ↦ rw e h
  ]

  claim-Holds :
      (now : ℕ) (session' run token' : String) (s : MemoryStore B)
      → Holds s
      → now < until
      → until ≤ now + lease_seconds
      → Holds (claim_session_turn lease_seconds now session' run token' s).1
  unfolding claim_session_turn
  claim-Holds now session' run token' s h lt le =
      elim (Bool-cases (is_head run (s.session_queues session'))) [
        | inr e ↦ rw e h
        | inl e ↦ elim (Bool-cases (is_taken now token' (s.session_leases session'))) [
          | inl f ↦ rw (e, f) h
          | inr f ↦
              rw (e, f)
                (written session' token' (now + lease_seconds) s h
                  (λ same.
                    not_taken now until token token' (s.session_leases session) h lt (rw same at f))
                  le)
        ]
      ]

  renew-Holds :
      (now : ℕ) (session' token' : String) (s : MemoryStore B)
      → Holds s
      → until ≤ now + lease_seconds
      → Holds (renew_session_lease lease_seconds now session' token' s).1
  unfolding renew_session_lease
  renew-Holds now session' token' s h le =
      elim (Bool-cases (is_owner token' (s.session_leases session'))) [
        | inr e ↦ rw e h
        | inl e ↦ rw e (
            written session' token' (now + lease_seconds) s h
              (λ same. owner until token token' (s.session_leases session) h (rw same at e)) le)
      ]

  release-Holds :
      (session' run token' : String) (s : MemoryStore B)
      → Holds s
      → (session' ≢ session) ⊎ (token' ≢ token)
      → Holds (release_session_turn session' run token' s)
  unfolding release_session_turn
  release-Holds session' run token' s h keeps =
      elim (Bool-cases (is_foreign token' (s.session_leases session'))) [
        | inl e ↦ rw e h
        | inr e ↦ elim (Bool-cases (session' == session)) [
          | inr f ↦ rw (e, f) h
          | inl f ↦
              let same : session' ≡ session = (eq_iff session' session).0 f in
              let mine : token' ≡ token =
                foreign until token token' (s.session_leases session) h (rw same at e) in
              elim keeps [ inl apart ↦ absurd (apart same) | inr apart ↦ absurd (apart mine) ]
        ]
      ]

  create-leases :
      (run : AgentRunRecord B) (s : MemoryStore B)
      → (create_or_get_and_enqueue hashing run s).1.session_leases ≡ s.session_leases
  unfolding create_or_get_and_enqueue add_run
  create-leases run s = ground arith

  abort-leases :
      (run_id : String) (s : MemoryStore B)
      → (transition_to_aborting run_id s).1.session_leases ≡ s.session_leases
  unfolding transition_to_aborting
  abort-leases run_id s = ground arith

  perform-Holds :
      (now : ℕ) (call : Call B) (s : MemoryStore B)
      → Holds s
      → KeepsLease session token call
      → now < until
      → until ≤ now + lease_seconds
      → Holds (perform hashing lease_seconds now call s)
  unfolding perform enqueue_session_turn remove_from_session_queue save request_abort
  perform-Holds now (create_run run) s h k lt le = rw create-leases h
  perform-Holds now (claim session' run token') s h k lt le =
      claim-Holds now session' run token' s h lt le
  perform-Holds now (enqueue session' ticket) s h k lt le = h
  perform-Holds now (renew session' token') s h k lt le = renew-Holds now session' token' s h le
  perform-Holds now (release session' run token') s h k lt le =
      release-Holds session' run token' s h k
  perform-Holds now (dequeue session' run) s h k lt le = h
  perform-Holds now (save_run run) s h k lt le = h
  perform-Holds now (abort run) s h k lt le = h
  perform-Holds now (start_abort run) s h k lt le = rw abort-leases h

  -- Every call of the list is made inside the lease, and none gives it back.
  abbrev pub Within : List (ℕ × Call B) → Type 0
  Within [] = Unit
  Within ((now, call) ∷ calls) =
      (now < until) × (until ≤ now + lease_seconds) × KeepsLease session token call × Within calls

  perform_all-Holds :
      (calls : List (ℕ × Call B)) (s : MemoryStore B)
      → Holds s
      → Within calls
      → Holds (perform_all hashing lease_seconds calls s)
  perform_all-Holds [] s h w = h
  perform_all-Holds ((now, call) ∷ calls) s h w =
      perform_all-Holds calls (perform hashing lease_seconds now call s)
        (perform-Holds now call s h w.2 w.0 w.1) w.3

claimed :
    {B : Type 0} (lease_seconds now : ℕ) (session run token : String) (s : MemoryStore B)
    → (claim_session_turn lease_seconds now session run token s).0 ≡ true
    → IsHeld token
        (now + lease_seconds)
        ((claim_session_turn lease_seconds now session run token s).1.session_leases session)
unfolding claim_session_turn
claimed lease_seconds now session run token s e =
    elim (Bool-cases (is_head run (s.session_queues session))) [
      | inr f ↦ cc (rw f at e)
      | inl f ↦ elim (Bool-cases (is_taken now token (s.session_leases session))) [
        | inl g ↦ cc (rw (f, g) at e)
        | inr g ↦ rw (f, g, eq_refl session) (refl, omega arith)
      ]
    ]

claim_refused :
    {B : Type 0} (lease_seconds now : ℕ) (session run token : String) (s : MemoryStore B)
    → is_taken now token (s.session_leases session) ≡ true
    → claim_session_turn lease_seconds now session run token s ≡ (false, s)
unfolding claim_session_turn
claim_refused lease_seconds now session run token s e =
    elim (Bool-cases (is_head run (s.session_queues session))) [ inr f ↦ rw f | inl f ↦ rw (f, e) ]

-- A worker that got a session's turn at `t` has it alone for the length of the lease: whatever calls
-- follow before the lease is over, by any workers and for any sessions, unless they give this lease
-- back, a claim of the session with another token is refused and changes nothing.
pub claim_excludes :
    {B : Type 0} (hashing : Hashing) (lease_seconds t : ℕ) (session run token : String)
    (s : MemoryStore B)
    → (claim_session_turn lease_seconds t session run token s).0 ≡ true
    → (calls : List (ℕ × Call B))
    → Within hashing lease_seconds session token (t + lease_seconds) calls
    → (now : ℕ) (run' token' : String) → now < t + lease_seconds
    → token' ≢ token
    → let later =
        perform_all hashing lease_seconds calls
          (claim_session_turn lease_seconds t session run token s).1 in
      claim_session_turn lease_seconds now session run' token' later ≡ (false, later)
claim_excludes hashing lease_seconds t session run token s e calls w now run' token' lt ne =
    let later =
      perform_all hashing lease_seconds calls
        (claim_session_turn lease_seconds t session run token s).1 in
    claim_refused lease_seconds now session run' token' later (
      taken now (t + lease_seconds) token token' (later.session_leases session)
        (perform_all-Holds hashing lease_seconds session token (t + lease_seconds) calls
          (claim_session_turn lease_seconds t session run token s).1
          (claimed lease_seconds t session run token s e) w)
        lt ne)
