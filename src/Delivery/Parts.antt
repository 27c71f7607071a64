-- ===== src/Delivery/Parts.antt =====
-- Lists of the parts of a delivery (app/mneme/models/channel.py), some of which are sent.
use mathlib.Core.List.{Sublistᴰ, append-nil}
use reminder.Prelude.{
  ℕ, zero, suc, ◌+◌, ◌≤◌, ◌≡◌, refl, ap, subst, List, [], ◌∷◌, ◌++◌, arith, take, drop, take_nil,
}

module _ {A : Type 0} where
  pub nil-Sublist : (ys : List A) → Sublistᴰ [] ys
  nil-Sublist [] = Sublistᴰ.slnil
  nil-Sublist (y ∷ ys) = Sublistᴰ.cons (nil-Sublist ys)

  pub append-Sublist :
      {xs ys : List A} {us vs : List A}
      → Sublistᴰ xs ys
      → Sublistᴰ us vs
      → Sublistᴰ (xs ++ us) (ys ++ vs)
  append-Sublist Sublistᴰ.slnil k = k
  append-Sublist (Sublistᴰ.cons h) k = Sublistᴰ.cons (append-Sublist h k)
  append-Sublist (Sublistᴰ.cons-cons e h) k = Sublistᴰ.cons-cons e (append-Sublist h k)

  pub grow-Sublist : {xs ys : List A} (zs : List A) → Sublistᴰ xs ys → Sublistᴰ xs (ys ++ zs)
  grow-Sublist {xs} {ys} zs h =
      subst (λ l. Sublistᴰ l (ys ++ zs)) (append-nil xs) (append-Sublist h (nil-Sublist zs))

  pub take-Sublist : (m n : ℕ) (xs : List A) → m ≤ n → Sublistᴰ (take m xs) (take n xs)
  take-Sublist zero n xs h = nil-Sublist (take n xs)
  take-Sublist (suc m) zero xs h = absurd (omega arith)
  take-Sublist (suc m) (suc n) [] h = Sublistᴰ.slnil
  take-Sublist (suc m) (suc n) (x ∷ xs) h =
      Sublistᴰ.cons-cons refl (take-Sublist m n xs (omega arith))

  pub take-take-drop : (m n : ℕ) (xs : List A) → take m xs ++ take n (drop m xs) ≡ take (m + n) xs
  take-take-drop zero n xs = ap (λ (k : ℕ). take k xs) (omega arith)
  take-take-drop (suc m) n [] =
      let e : suc (m + n) ≡ suc m + n = omega arith in
      subst (λ k. take {A = A} n [] ≡ take k []) e (take_nil n)
  take-take-drop (suc m) n (x ∷ xs) =
      let e : suc (m + n) ≡ suc m + n = omega arith in
      subst (λ k. x ∷ (take m xs ++ take n (drop m xs)) ≡ take k (x ∷ xs)) e
        (ap (λ t. x ∷ t) (take-take-drop m n xs))
