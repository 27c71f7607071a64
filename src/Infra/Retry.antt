-- ===== src/Infra/Retry.antt =====
-- `retry_async` of app/mneme/infra/retry/__init__.py. The function that it awaits acts on a world `W`;
-- delays are whole units of time.
use reminder.Prelude.{
  ℕ, zero, suc, ◌+◌, ◌-◌, ◌*◌, ◌^◌, min, Bool, not, ◌||◌, List, [], ◌∷◌, leb, if◌then◌else◌,
}

pub data Attempt (T E : Type 0) : Type 0 where
  returned : T → Attempt T E
  threw : E → Attempt T E

-- How the loop ends; `unfinished` only where the fuel of the model runs out.
pub data Ended (T E : Type 0) : Type 0 where
  returns : T → Ended T E
  reraises : E → Ended T E
  unfinished : Ended T E

module _ {T E W : Type 0} (func : W → Attempt T E × W) (is_retryable : E → Bool)
    (max_attempts base_delay max_delay : ℕ) where
  abbrev pub delay_of : (attempt : ℕ) → ℕ
  delay_of attempt = min (base_delay * 2 ^ (attempt - 1)) max_delay

  -- One round with the number of the attempt, from how the call ended; `rest` is the next round.
  abbrev pub after_call :
      (attempt : ℕ) → Attempt T E × W → (Ended T E × List ℕ × W) → Ended T E × List ℕ × W
  after_call attempt (returned value, world) rest = (returns value, [], world)
  after_call attempt (threw exc, world) rest =
      if leb max_attempts attempt || not (is_retryable exc)
      then (reraises exc, [], world)
      else (rest.0, delay_of attempt ∷ rest.1, rest.2)

  -- The loop after `attempt` calls: its end, the delays it slept, and the world.
  unfoldable pub retry_loop : (fuel attempt : ℕ) → W → Ended T E × List ℕ × W
  retry_loop zero attempt world = (unfinished, [], world)
  retry_loop (suc fuel) attempt world =
      after_call (attempt + 1) (func world) (retry_loop fuel (attempt + 1) (func world).1)

  unfoldable pub retry_async : W → Ended T E × List ℕ × W
  unfolding retry_loop
  retry_async = retry_loop (suc max_attempts) 0
