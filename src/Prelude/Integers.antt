-- ===== src/Prelude/Integers.antt =====
-- Python's int over the native numbers, with its comparisons.
use Prim.Native.Nat.{ℕ}
use mathlib.Core.Bool.{Bool, true, false}
use mathlib.Core.Path.{◌≡◌, ap}
use native.Mathlib.Omega.{arith}
use reminder.Prelude.Tests.{leb, eqb}

pub data ℤ : Type 0 where
  pos : ℕ → ℤ
  negsuc : ℕ → ℤ

abbrev pub leb_int : ℤ → ℤ → Bool
leb_int (pos a) (pos b) = leb a b
leb_int (pos a) (negsuc b) = false
leb_int (negsuc a) (pos b) = true
leb_int (negsuc a) (negsuc b) = leb b a

abbrev pub eqb_int : ℤ → ℤ → Bool
eqb_int (pos a) (pos b) = eqb a b
eqb_int (negsuc a) (negsuc b) = eqb a b
eqb_int _ _ = false

pub eqb_int_eq : (a b : ℤ) → eqb_int a b ≡ true → a ≡ b
eqb_int_eq (pos a) (pos b) e = let same : a ≡ b = ground (arith, e) in ap pos same
eqb_int_eq (pos a) (negsuc b) e = absurd (ground (arith, e))
eqb_int_eq (negsuc a) (pos b) e = absurd (ground (arith, e))
eqb_int_eq (negsuc a) (negsuc b) e = let same : a ≡ b = ground (arith, e) in ap negsuc same
