-- ===== src/Prelude/Sorting.antt =====
-- ORDER BY a number: the rows sorted by insertion, equal ones in their old order.
use Prim.Native.Nat.{ℕ, zero, suc, ◌≤◌}
use mathlib.Core.Path.{◌≡◌, refl}
use mathlib.Core.Bool.{Bool, true, false}
use mathlib.Core.List.{List, [], ◌∷◌, Perm}
use mathlib.Core.List.Perm
use native.Mathlib.Omega.{arith}
use reminder.Prelude.Tests.{leb, if◌then◌else◌}
use reminder.Prelude.Lists.{take, keep, All}

module _ {A : Type 0} where
  pub All-map : (Q R : A → Type 0) (xs : List A) → ((x : A) → Q x → R x) → All Q xs → All R xs
  All-map Q R [] f h = tt
  All-map Q R (x ∷ xs) f h = (f x h.0, All-map Q R xs f h.1)

  pub All-keep :
      (Q : A → Type 0) (p : A → Bool) (xs : List A)
      → ((x : A) → p x ≡ true → Q x)
      → All Q (keep p xs)
  All-keep Q p [] h = tt
  All-keep Q p (x ∷ xs) h = go (p x) refl (All-keep Q p xs h)
    where
      go : (b : Bool) → p x ≡ b → All Q (keep p xs) → All Q (if b then x ∷ keep p xs else keep p xs)
      go true e rest = (h x e, rest)
      go false e rest = rest

  pub All-take : (Q : A → Type 0) (n : ℕ) (xs : List A) → All Q xs → All Q (take n xs)
  All-take Q zero xs h = tt
  All-take Q (suc n) [] h = tt
  All-take Q (suc n) (x ∷ xs) h = (h.0, All-take Q n xs h.1)

module _ {A : Type 0} (rank : A → ℕ) where
  unfoldable pub insert_by : A → List A → List A
  insert_by x [] = x ∷ []
  insert_by x (y ∷ ys) =
      let rest = insert_by x ys in if leb (rank x) (rank y) then x ∷ y ∷ ys else y ∷ rest

  unfoldable pub sort_by : List A → List A
  unfolding insert_by
  sort_by [] = []
  sort_by (x ∷ xs) = insert_by x (sort_by xs)

  abbrev pub IsOrdered : List A → Type 0
  IsOrdered [] = Unit
  IsOrdered (x ∷ xs) = All (λ y. rank x ≤ rank y) xs × IsOrdered xs

  All-insert_by : (Q : A → Type 0) (x : A) (xs : List A) → Q x → All Q xs → All Q (insert_by x xs)
  unfolding insert_by
  All-insert_by Q x [] q qs = (q, tt)
  All-insert_by Q x (y ∷ ys) q qs = go (leb (rank x) (rank y)) (All-insert_by Q x ys q qs.1)
    where
      go :
          (b : Bool) → All Q (insert_by x ys) → All Q (if b then x ∷ y ∷ ys else y ∷ insert_by x ys)
      go true rest = (q, qs)
      go false rest = (qs.0, rest)

  pub All-sort_by : (Q : A → Type 0) (xs : List A) → All Q xs → All Q (sort_by xs)
  unfolding sort_by
  All-sort_by Q [] qs = tt
  All-sort_by Q (x ∷ xs) qs = All-insert_by Q x (sort_by xs) qs.0 (All-sort_by Q xs qs.1)

  insert_by-IsOrdered : (x : A) (xs : List A) → IsOrdered xs → IsOrdered (insert_by x xs)
  unfolding insert_by
  insert_by-IsOrdered x [] h = (tt, tt)
  insert_by-IsOrdered x (y ∷ ys) h = go (leb (rank x) (rank y)) refl (insert_by-IsOrdered x ys h.1)
    where
      go :
          (b : Bool)
          → leb (rank x) (rank y) ≡ b
          → IsOrdered (insert_by x ys)
          → IsOrdered (if b then x ∷ y ∷ ys else y ∷ insert_by x ys)
      go true e rest = ((ground arith, All-map _ _ ys (λ z k. ground arith) h.0), h)
      go false e rest = (All-insert_by _ x ys (ground arith) h.0, rest)

  pub sort_by-IsOrdered : (xs : List A) → IsOrdered (sort_by xs)
  unfolding sort_by
  sort_by-IsOrdered [] = tt
  sort_by-IsOrdered (x ∷ xs) = insert_by-IsOrdered x (sort_by xs) (sort_by-IsOrdered xs)

  pub take-IsOrdered : (n : ℕ) (xs : List A) → IsOrdered xs → IsOrdered (take n xs)
  take-IsOrdered zero xs h = tt
  take-IsOrdered (suc n) [] h = tt
  take-IsOrdered (suc n) (x ∷ xs) h = (All-take _ n xs h.0, take-IsOrdered n xs h.1)

  insert_by-perm : (x : A) (xs : List A) → Perm (insert_by x xs) (x ∷ xs)
  unfolding insert_by
  insert_by-perm x [] = Perm.refl (x ∷ [])
  insert_by-perm x (y ∷ ys) = go (leb (rank x) (rank y)) (insert_by-perm x ys)
    where
      go :
          (b : Bool)
          → Perm (insert_by x ys) (x ∷ ys)
          → Perm (if b then x ∷ y ∷ ys else y ∷ insert_by x ys) (x ∷ y ∷ ys)
      go true p = Perm.refl (x ∷ y ∷ ys)
      go false p = Perm.trans (Perm.cons y p) (Perm.swap x y ys)

  pub sort_by-perm : (xs : List A) → Perm (sort_by xs) xs
  unfolding sort_by
  sort_by-perm [] = Perm.refl []
  sort_by-perm (x ∷ xs) = Perm.trans (insert_by-perm x (sort_by xs)) (Perm.cons x (sort_by-perm xs))

-- list.sort() by a key that is no number: `le` compares two keys.
module _ {A : Type 0} (le : A → A → Bool) where
  unfoldable pub insert_with : A → List A → List A
  insert_with x [] = x ∷ []
  insert_with x (y ∷ ys) = let rest = insert_with x ys in if le x y then x ∷ y ∷ ys else y ∷ rest

  unfoldable pub sort_with : List A → List A
  unfolding insert_with
  sort_with [] = []
  sort_with (x ∷ xs) = insert_with x (sort_with xs)

  insert_with-perm : (x : A) (xs : List A) → Perm (insert_with x xs) (x ∷ xs)
  unfolding insert_with
  insert_with-perm x [] = Perm.refl (x ∷ [])
  insert_with-perm x (y ∷ ys) = go (le x y) (insert_with-perm x ys)
    where
      go :
          (b : Bool)
          → Perm (insert_with x ys) (x ∷ ys)
          → Perm (if b then x ∷ y ∷ ys else y ∷ insert_with x ys) (x ∷ y ∷ ys)
      go true p = Perm.refl (x ∷ y ∷ ys)
      go false p = Perm.trans (Perm.cons y p) (Perm.swap x y ys)

  pub sort_with-perm : (xs : List A) → Perm (sort_with xs) xs
  unfolding sort_with
  sort_with-perm [] = Perm.refl []
  sort_with-perm (x ∷ xs) =
      Perm.trans (insert_with-perm x (sort_with xs)) (Perm.cons x (sort_with-perm xs))
