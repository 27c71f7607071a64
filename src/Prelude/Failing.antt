-- ===== src/Prelude/Failing.antt =====
-- A value or one of the exceptions `X` of a component, and what follows from an action that returned.
use mathlib.Core.Path.{◌≡◌, refl}
use native.Mathlib.Omega.{arith}

pub data Attempt {ℓ} (X : Type 0) (A : Type ℓ) : Type ℓ where
  raised : X → Attempt X A
  ok : A → Attempt X A

infixl 5 ◌>>=◌ ◌>>◌
abbrev pub ◌>>=◌ {ℓ κ} :
    {X : Type 0} {A : Type ℓ} {B : Type κ} → Attempt X A → (A → Attempt X B) → Attempt X B
raised x >>= next = raised x
ok a >>= next = next a

abbrev pub ◌>>◌ {ℓ κ} :
    {X : Type 0} {A : Type ℓ} {B : Type κ} → Attempt X A → Attempt X B → Attempt X B
raised x >> next = raised x
ok a >> next = next

pub bind_ok {ℓ κ} :
    {X : Type 0} {A : Type ℓ} {B : Type κ} (first : Attempt X A) (next : A → Attempt X B)
    {result : B}
    → (first >>= next) ≡ ok result
    → (a : A) × (first ≡ ok a) × (next a ≡ ok result)
bind_ok (raised x) next e = absurd (ground (arith, e))
bind_ok (ok a) next e = (a, refl, e)
