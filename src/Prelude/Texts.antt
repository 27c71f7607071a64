-- ===== src/Prelude/Texts.antt =====
-- Native texts measured, cut and joined by characters, as Python's `len`, `s[:n]` and f-strings do.
use Prim.Native.Nat.{ℕ, zero, suc, ◌≤◌, min}
use Prim.Native.String.{String, ◌++◌}
use mathlib.Core.Path.{◌≡◌, refl}
use native.Mathlib.Omega.{arith}

abbrev pub chars : String → ℕ
chars String.[] = 0
chars (String.◌∷◌ c s) = suc (chars s)

-- s[:n]
unfoldable pub take_chars : ℕ → String → String
take_chars zero s = String.[]
take_chars (suc n) String.[] = String.[]
take_chars (suc n) (String.◌∷◌ c s) = String.◌∷◌ c (take_chars n s)

-- f"{a}:{b}"
abbrev pub with_colon : String → String → String
with_colon a b = a ++ (":" ++ b)

pub chars-take_chars : (n : ℕ) (s : String) → chars (take_chars n s) ≡ min n (chars s)
unfolding take_chars
chars-take_chars zero s = omega arith
chars-take_chars (suc n) String.[] = omega arith
chars-take_chars (suc n) (String.◌∷◌ c s) = omega (arith, chars-take_chars n s)

pub take_chars_all : (n : ℕ) (s : String) → chars s ≤ n → take_chars n s ≡ s
unfolding take_chars
take_chars_all zero String.[] h = refl
take_chars_all zero (String.◌∷◌ c s) h = absurd (omega arith)
take_chars_all (suc n) String.[] h = refl
take_chars_all (suc n) (String.◌∷◌ c s) h = λ i. String.◌∷◌ c (take_chars_all n s (omega arith) i)
