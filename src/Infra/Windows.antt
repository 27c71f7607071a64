-- ===== src/Infra/Windows.antt =====
-- How many calls a window lets through.
use reminder.Prelude.{
  ℕ, ◌+◌, ◌-◌, ◌≤◌, ◌<◌, min, String, ◌≡◌, ◌≢◌, inl, inr, some, List, [], ◌∷◌, leb, ◌==◌,
  if◌then◌else◌, eq_iff, eq_refl, arith, leb→le, Bool-cases, Outcome, ok, raised, with_colon,
  length, All,
}
use reminder.Infra.RateLimit.{
  Window, Counters, get_window, set_window, current_window, enforce_fixed_window_rate_limit,
}

get-set :
    (j k : String) (w : Window) (counters : Counters)
    → get_window j (set_window k w counters) ≡ (if k == j then some w else get_window j counters)
unfolding get_window set_window
get-set j k w [] = ground arith
get-set j k w ((key, old) ∷ rest) =
    ground (arith, get-set j k w rest, eq_iff k j, eq_iff key k, eq_iff key j)

abbrev passed : Outcome {0} Unit → ℕ
passed (ok u) = 1
passed (raised code) = 0

-- How many of the calls at the times of the list return.
abbrev pub let_through : (bucket key : String) → (limit window_seconds : ℕ) → List ℕ → Counters → ℕ
let_through bucket key limit window_seconds [] counters = 0
let_through bucket key limit window_seconds (now ∷ times) counters =
    let call = enforce_fixed_window_rate_limit now bucket key limit window_seconds counters in
    passed call.0 + let_through bucket key limit window_seconds times call.1

module _ (bucket key : String) (limit window_seconds : ℕ) (limited : 0 < limit) where
  allowed :
      (now : ℕ) (counters : Counters) (w : Window)
      → get_window (with_colon bucket key) counters ≡ some w
      → now < w.window_end
      → w.count < limit
      → enforce_fixed_window_rate_limit now bucket key limit window_seconds counters
        ≡ (ok tt, set_window (with_colon bucket key) (record w { count = w.count + 1 }) counters)
  unfolding enforce_fixed_window_rate_limit
  allowed now counters w found inside below = ground (arith, found, inside, below, limited)

  blocked :
      (now : ℕ) (counters : Counters) (w : Window)
      → get_window (with_colon bucket key) counters ≡ some w
      → now < w.window_end
      → limit ≤ w.count
      → enforce_fixed_window_rate_limit now bucket key limit window_seconds counters
        ≡ (raised 4290, set_window (with_colon bucket key) w counters)
  unfolding enforce_fixed_window_rate_limit
  blocked now counters w found inside above = ground (arith, found, inside, above, limited)

  -- Of the calls before the end of a window, exactly those pass that its count has room for below
  -- the limit, however many are made.
  pub window_passes :
      (times : List ℕ) (counters : Counters) (w : Window)
      → get_window (with_colon bucket key) counters ≡ some w
      → All (λ now. now < w.window_end) times
      → let_through bucket key limit window_seconds times counters
        ≡ min (length times) (limit - w.count)
  window_passes [] counters w found inside = omega arith
  window_passes (now ∷ times) counters w found inside =
      let k = with_colon bucket key in
      elim (Bool-cases (leb limit w.count)) [
        | inl full ↦
            let rest =
              window_passes times (set_window k w counters) w
                (cc (get-set k k w counters, eq_refl k)) inside.1 in
            rw (blocked now counters w found inside.0 (leb→le limit w.count full))
              (omega (arith, rest, leb→le limit w.count full))
        | inr room ↦
            let below : w.count < limit = ground (arith, room) in
            let next = record w { count = w.count + 1 } in
            let rest =
              window_passes times (set_window k next counters) next
                (cc (get-set k k next counters, eq_refl k)) inside.1 in
            rw (allowed now counters w found inside.0 below) (omega (arith, rest, below))
      ]

-- A call under one key leaves the window of every other key as it is.
pub other_keys :
    (now : ℕ) (bucket key : String) (limit window_seconds : ℕ) (counters : Counters)
    (other : String)
    → with_colon bucket key ≢ other
    → get_window other
        (enforce_fixed_window_rate_limit now bucket key limit window_seconds counters).1
      ≡ get_window other counters
unfolding enforce_fixed_window_rate_limit
other_keys now bucket key limit window_seconds counters other ne =
    let k = with_colon bucket key in
    let w = current_window now window_seconds (get_window k counters) in
    ground (
      arith,
      ne,
      eq_iff k other,
      get-set other k w counters,
      get-set other k (record w { count = w.count + 1 }) counters,
    )

-- A call at the end of a window or behind it passes, and starts a window of the full length that
-- counts it.
pub window_renewed :
    (now : ℕ) (bucket key : String) (limit window_seconds : ℕ) (counters : Counters) (w : Window)
    → 0 < limit
    → get_window (with_colon bucket key) counters ≡ some w
    → w.window_end ≤ now
    → ((enforce_fixed_window_rate_limit now bucket key limit window_seconds counters).0 ≡ ok tt)
      × (get_window
            (with_colon bucket key)
            (enforce_fixed_window_rate_limit now bucket key limit window_seconds counters).1
          ≡ some (record { count = 1; window_end = now + window_seconds }))
unfolding enforce_fixed_window_rate_limit
window_renewed now bucket key limit window_seconds counters w limited found over =
    let k = with_colon bucket key in
    let fresh : Window = record { count = 1; window_end = now + window_seconds } in
    (
      ground (arith, found, over, limited),
      ground (arith, found, over, limited, get-set k k fresh counters, eq_refl k),
    )
