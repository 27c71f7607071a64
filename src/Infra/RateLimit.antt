-- ===== src/Infra/RateLimit.antt =====
-- `enforce_fixed_window_rate_limit` of app/mneme/infra/rate_limit/__init__.py. The counters of the
-- process are a table from the counter's key.
use reminder.Prelude.{
  ℕ, ◌+◌, String, Option, none, some, List, [], ◌∷◌, leb, ◌==◌, if◌then◌else◌, Outcome, ok, raised,
  with_colon,
}

pub record Window : Type 0 where
  pub count : ℕ
  pub window_end : ℕ

abbrev pub Counters : Type 0
Counters = List (String × Window)

unfoldable pub get_window : String → Counters → Option Window
get_window k [] = none
get_window k ((key, window) ∷ rest) =
    let below = get_window k rest in if key == k then some window else below

unfoldable pub set_window : String → Window → Counters → Counters
set_window k window [] = (k, window) ∷ []
set_window k window ((key, old) ∷ rest) =
    let below = set_window k window rest in
    if key == k then (k, window) ∷ rest else (key, old) ∷ below

-- The window that a call counts in.
abbrev pub current_window : (now window_seconds : ℕ) → Option Window → Window
current_window now window_seconds none = record { count = 0; window_end = now + window_seconds }
current_window now window_seconds (some window) =
    if leb window.window_end now
    then record { count = 0; window_end = now + window_seconds }
    else window

abbrev pub too_many_requests : Outcome {0} Unit
too_many_requests = raised 4290

-- A limit of 0 or below is no limit. The fresh window is stored before the limit is tested.
unfoldable pub enforce_fixed_window_rate_limit :
    (now : ℕ)
    → (bucket key : String) → (limit window_seconds : ℕ) → Counters
    → Outcome {0} Unit × Counters
unfolding get_window set_window
enforce_fixed_window_rate_limit now bucket key limit window_seconds counters =
    let counter_key = with_colon bucket key in
    let window = current_window now window_seconds (get_window counter_key counters) in
    if leb limit 0
    then (ok tt, counters)
    else (if leb limit window.count
        then (too_many_requests, set_window counter_key window counters)
        else (ok tt, set_window counter_key (record window { count = window.count + 1 }) counters))
