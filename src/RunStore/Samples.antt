-- ===== src/RunStore/Samples.antt =====
-- Two runs of one session, and the theorems at them.
use reminder.Prelude.{
  ℕ, ◌≡◌, refl, true, false, if◌then◌else◌, none, some, List, [], ◌∷◌, ◌==◌, eq_iff, arith,
  with_colon,
}
use reminder.RunStore.Record.{AgentRunRecord, create}
use reminder.RunStore.Memory.{
  MemoryStore, Hashing, empty, add_run, create_or_get_and_enqueue, claim_session_turn,
  release_session_turn,
}
use reminder.RunStore.Exclusion.{Call, claim, renew, perform_all, claim_excludes}
use reminder.RunStore.Turns.{release_hands_on}

-- A key of the parts that are hashed, with no digest of them.
abbrev plain : Hashing
plain = record { request_key = λ user session request. with_colon session request }

first : AgentRunRecord ℕ
unfolding create
first = create "r1" "s1" 1 "c1" 0 3 10

second : AgentRunRecord ℕ
unfolding create
second = create "r2" "s1" 1 "c2" 0 3 11

abbrev queued : MemoryStore ℕ
queued = record (empty {B = ℕ}) {
  records =
      λ run_id. if run_id == "r1" then some first else if run_id == "r2" then some second else none;
  request_runs =
      λ key. if key == "s1:c1" then some "r1" else if key == "s1:c2" then some "r2" else none;
  session_queues = λ session. if session == "s1" then "r1" ∷ "r2" ∷ [] else [];
}

first_claims : (claim_session_turn 120 50 "s1" "r1" "a" queued).0 ≡ true
unfolding claim_session_turn
first_claims = refl

second_waits : (claim_session_turn 120 50 "s1" "r2" "b" queued).0 ≡ false
unfolding claim_session_turn
second_waits = refl

abbrev calls : List (ℕ × Call ℕ)
calls = (80, renew "s1" "a") ∷ (90, claim "s1" "r1" "b") ∷ []

claim_excludes_example :
    let later = perform_all plain 120 calls (claim_session_turn 120 50 "s1" "r1" "a" queued).1 in
    claim_session_turn 120 160 "s1" "r1" "b" later ≡ (false, later)
claim_excludes_example =
    claim_excludes plain 120 50 "s1" "r1" "a" queued first_claims calls
      (omega arith, omega arith, tt, (omega arith, omega arith, tt, tt)) 160 "r1" "b" (omega arith)
      (ground (arith, eq_iff "b" "a"))

release_hands_on_example :
    ((release_session_turn "s1" "r1" "a" queued).session_leases "s1" ≡ none)
    × ((release_session_turn "s1" "r1" "a" queued).session_queues "s1" ≡ "r2" ∷ [])
    × ((claim_session_turn 120 60 "s1" "r2" "b" (release_session_turn "s1" "r1" "a" queued)).0
        ≡ true)
release_hands_on_example = release_hands_on 120 60 "s1" "r1" "a" "r2" "b" queued [] refl refl

created : (create_or_get_and_enqueue plain first (empty {B = ℕ})).0.1 ≡ true
unfolding create_or_get_and_enqueue add_run
created = refl
