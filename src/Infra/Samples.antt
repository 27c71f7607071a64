-- ===== src/Infra/Samples.antt =====
-- A limit of two calls and a function that fails twice, and the theorems at them.
use reminder.Prelude.{
  ℕ, zero, suc, ◌≤◌, String, ◌≡◌, refl, true, Bool, some, [], ◌∷◌, arith, length, All,
}
use reminder.Infra.RateLimit.{Counters, get_window}
use reminder.Infra.Windows.{let_through, window_passes}
use reminder.Infra.Retry.{Attempt, returned, threw, retry_async}
use reminder.Infra.Attempts.{nth_call, HandsOn, Retried, retry_ends}

abbrev counters : Counters
counters = ("chat:u1", record { count = 1; window_end = 100 }) ∷ []

found : get_window "chat:u1" counters ≡ some (record { count = 1; window_end = 100 })
unfolding get_window
found = refl

window_passes_example : let_through "chat" "u1" 3 60 (90 ∷ 91 ∷ 92 ∷ 93 ∷ []) counters ≡ 2
window_passes_example =
    window_passes "chat" "u1" 3 60 (omega arith) (90 ∷ 91 ∷ 92 ∷ 93 ∷ []) counters
      (record { count = 1; window_end = 100 }) found
      (omega arith, (omega arith, (omega arith, (omega arith, tt))))

-- The world is the number of calls that still fail.
abbrev fails : ℕ → Attempt String ℕ × ℕ
fails zero = (returned "done", 0)
fails (suc n) = (threw 503, n)

abbrev always : ℕ → Bool
always code = true

retry_ends_example :
    let (ended, delays, later) = retry_async fails always 3 10 15 7 in
    HandsOn fails always 3 10 15 (nth_call fails always 3 10 15 (length delays) 7).0 ended
    × (later ≡ (nth_call fails always 3 10 15 (length delays) 7).1)
    × Retried fails always 3 10 15 (length delays) 7
    × (suc (length delays) ≤ 3)
    × All (λ delay. delay ≤ 15) delays
retry_ends_example = retry_ends fails always 3 10 15 7
