-- ===== src/Infra/Attempts.antt =====
-- The end of the retry loop, its delays, and what it survives.
use reminder.Prelude.{
  ℕ, zero, suc, ◌+◌, ◌≤◌, ◌<◌, max, ◌≡◌, refl, ◌∙◌, Bool, true, false, not, ◌||◌, List, [], ◌∷◌,
  leb, if◌then◌else◌, arith, length, All,
}
use reminder.Infra.Retry.{
  Attempt, returned, threw, Ended, returns, reraises, delay_of, after_call, retry_loop, retry_async,
}

module _ {T E W : Type 0} (func : W → Attempt T E × W) (is_retryable : E → Bool)
    (max_attempts base_delay max_delay : ℕ) where
  -- How the function's call number `n` ends, where the calls before it have all raised, and the world
  -- that it leaves.
  abbrev pub nth_call : (n : ℕ) → W → Attempt T E × W
  nth_call zero world = func world
  nth_call (suc n) world = nth_call n (func world).1

  -- What a call hands on to the caller.
  abbrev pub HandsOn : Attempt T E → Ended T E → Type 0
  HandsOn (returned value) r = r ≡ returns value
  HandsOn (threw exc) r = r ≡ reraises exc

  -- The calls before the number `n` raise what may be retried.
  abbrev pub Retried : (n : ℕ) → W → Type 0
  Retried zero world = Unit
  Retried (suc n) world =
      ((exc : E) × ((func world).0 ≡ threw exc) × (is_retryable exc ≡ true))
      × Retried n (func world).1

  -- How a loop behind `attempt` calls ends in `world`: with the last call that it makes.
  abbrev Ends : (attempt : ℕ) → W → Ended T E × List ℕ × W → Type 0
  Ends attempt world r =
      HandsOn (nth_call (length r.1) world).0 r.0
      × (r.2 ≡ (nth_call (length r.1) world).1)
      × Retried (length r.1) world
      × (attempt + suc (length r.1) ≤ max (attempt + 1) max_attempts)
      × All (λ delay. delay ≤ max_delay) r.1

  call-Ends :
      (attempt : ℕ) (world : W) (call : Attempt T E × W) (rest : Ended T E × List ℕ × W)
      → func world ≡ call
      → (attempt + 1 < max_attempts → Ends (attempt + 1) call.1 rest)
      → Ends attempt world
          (after_call func is_retryable max_attempts base_delay max_delay (attempt + 1) call rest)
  call-Ends attempt world (returned value, later) rest e h = rw e (refl, refl, tt, omega arith, tt)
  call-Ends attempt world (threw exc, later) rest e h =
      go (is_retryable exc) (leb max_attempts (attempt + 1)) refl refl
    where
      go :
          (again stop : Bool)
          → is_retryable exc ≡ again
          → leb max_attempts (attempt + 1) ≡ stop
          → Ends attempt world (
              if stop || not again then (reraises exc, [], later) else (
                rest.0,
                delay_of func is_retryable max_attempts base_delay max_delay (attempt + 1) ∷ rest.1,
                rest.2,
              ))
      go again true r s = rw e (refl, refl, tt, omega arith, tt)
      go false false r s = rw e (refl, refl, tt, omega arith, tt)
      go true false r s =
          let more : attempt + 1 < max_attempts = ground (arith, s) in
          let (ended, left, retried, few, short) = h more in
          rw e
            (ended, left, ((exc, refl, r), retried), omega (arith, few, more), (omega arith, short))

  loop-Ends :
      (fuel attempt : ℕ) (world : W)
      → max_attempts ≤ attempt + fuel
      → Ends attempt world
          (retry_loop func is_retryable max_attempts base_delay max_delay (suc fuel) attempt world)
  unfolding retry_loop
  loop-Ends zero attempt world enough =
      call-Ends attempt world (func world) _ refl (λ more. absurd (omega (arith, more, enough)))
  loop-Ends (suc fuel) attempt world enough =
      call-Ends attempt world (func world) _ refl
        (λ more. loop-Ends fuel (attempt + 1) (func world).1 (omega (arith, enough)))

  -- Every loop ends, with the value or the exception of the last call that it makes and the world that
  -- this call leaves. It makes one call more than it sleeps, every call before the last raises what may
  -- be retried, the calls are at most `max_attempts`, or one where that is 0, and each delay is at most
  -- `max_delay`.
  pub retry_ends :
      (world : W)
      → let (ended, delays, later) =
          retry_async func is_retryable max_attempts base_delay max_delay world in
        HandsOn (nth_call (length delays) world).0 ended
        × (later ≡ (nth_call (length delays) world).1)
        × Retried (length delays) world
        × (suc (length delays) ≤ max 1 max_attempts)
        × All (λ delay. delay ≤ max_delay) delays
  unfolding retry_async
  retry_ends world =
      let (ended, left, retried, few, short) = loop-Ends max_attempts 0 world (omega arith) in
      (ended, left, retried, omega (arith, few), short)

  -- The function fails `k` times, each time with an error that may be retried, and then returns `value`.
  abbrev pub RecoversAfter : (k : ℕ) → W → T → Type 0
  RecoversAfter zero world value = (func world).0 ≡ returned value
  RecoversAfter (suc k) world value =
      (exc : E) × ((func world).0 ≡ threw exc)
      × (is_retryable exc ≡ true)
      × RecoversAfter k (func world).1 value

  returned_call :
      (attempt : ℕ) (call : Attempt T E × W) (rest : Ended T E × List ℕ × W) (value : T)
      → call.0 ≡ returned value
      → (after_call func is_retryable max_attempts base_delay max_delay attempt call rest).0
        ≡ returns value
  returned_call attempt (returned value', world) rest value e = cc
  returned_call attempt (threw exc, world) rest value e = cc

  threw_call :
      (attempt : ℕ) (call : Attempt T E × W) (rest : Ended T E × List ℕ × W) (exc : E)
      → call.0 ≡ threw exc
      → is_retryable exc ≡ true
      → attempt < max_attempts
      → (after_call func is_retryable max_attempts base_delay max_delay attempt call rest).0
        ≡ rest.0
  threw_call attempt (returned value, world) rest exc e again more = cc
  threw_call attempt (threw exc', world) rest exc e again more = ground (arith, e, again, more)

  loop_recovers :
      (k fuel attempt : ℕ) (world : W) (value : T)
      → attempt + k < max_attempts
      → k < fuel
      → RecoversAfter k world value
      → (retry_loop func is_retryable max_attempts base_delay max_delay fuel attempt world).0
        ≡ returns value
  unfolding retry_loop
  loop_recovers k zero attempt world value below enough recovers = absurd (omega (arith, enough))
  loop_recovers zero (suc fuel) attempt world value below enough recovers =
      returned_call (attempt + 1) (func world) _ value recovers
  loop_recovers (suc k) (suc fuel) attempt world value below enough (exc, failed, again, recovers) =
      threw_call (attempt + 1) (func world) _ exc failed again (omega (arith, below))
      ∙ loop_recovers k fuel (attempt + 1) (func world).1 value (omega (arith, below))
          (omega (arith, enough)) recovers

  -- Fewer failures than `max_attempts`, all of them retryable, do not reach the caller.
  pub retry_recovers :
      (k : ℕ) (world : W) (value : T)
      → k < max_attempts
      → RecoversAfter k world value
      → (retry_async func is_retryable max_attempts base_delay max_delay world).0 ≡ returns value
  unfolding retry_async
  retry_recovers k world value below recovers =
      loop_recovers k (suc max_attempts) 0 world value (omega (arith, below)) (omega (arith, below))
        recovers
