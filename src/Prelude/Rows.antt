-- ===== src/Prelude/Rows.antt =====
-- A database table as the list of its rows, each with the text that is its primary key.
use Prim.Native.String.{String}
use mathlib.Core.Path.{◌≡◌, refl}
use mathlib.Core.Bool.{Bool, ◌&&◌}
use mathlib.Core.Option
use mathlib.Core.Option.{Option, none, some}
use mathlib.Core.List.{List, [], ◌∷◌, ◌++◌, map}
use native.Mathlib.Omega.{arith}
use text.Mathlib.Text.{◌==◌}
use text.Mathlib.TextEquality.{eq_iff}
use text.Mathlib.TextPositions.{eq_refl}
use reminder.Prelude.Tests.{if◌then◌else◌, is_some}
use reminder.Prelude.Lists.{some_of, keep, All}

-- `set(ids)`, or list(dict.fromkeys(ids)): the first of each. `seen` are those before.
unfoldable pub distinct : List String → List String → List String
distinct seen [] = []
distinct seen (x ∷ xs) =
    let fresh = distinct (x ∷ seen) xs in
    if some_of (λ y. y == x) seen then distinct seen xs else x ∷ fresh

module _ {A : Type 0} (key : A → String) where
  -- SELECT ... WHERE key = k, one row or none.
  unfoldable pub find_row : String → List A → Option A
  find_row k [] = none
  find_row k (r ∷ rs) = let rest = find_row k rs in if key r == k then some r else rest

  -- Writing a loaded row back.
  unfoldable pub write_row : String → (A → A) → List A → List A
  write_row k f [] = []
  write_row k f (r ∷ rs) = let rest = write_row k f rs in if key r == k then f r ∷ rs else r ∷ rest

  -- Reading back a write that keeps the primary key.
  pub find_row-write_row :
      (k j : String) (f : A → A) (rs : List A)
      → ((r : A) → key r ≡ k → key (f r) ≡ k)
      → find_row j (write_row k f rs)
        ≡ (if k == j then Option.map f (find_row j rs) else find_row j rs)
  unfolding find_row write_row
  find_row-write_row k j f [] same = ground arith
  find_row-write_row k j f (r ∷ rs) same = ground (
    arith,
    same r,
    eq_iff k j,
    eq_iff (key r) k,
    eq_iff (key r) j,
    find_row-write_row k j f rs same,
  )

  pub key-find_row : (k : String) (rs : List A) {r : A} → find_row k rs ≡ some r → key r ≡ k
  unfolding find_row
  key-find_row k [] e = ground arith
  key-find_row k (x ∷ rs) {r} e = ground (arith, eq_iff (key x) k, key-find_row k rs {r = r})

  pub find_row-append :
      (k : String) (rs : List A) (r : A)
      → find_row k rs ≡ none
      → find_row k (rs ++ (r ∷ [])) ≡ (if key r == k then some r else none)
  unfolding find_row
  find_row-append k [] r e = ground arith
  find_row-append k (x ∷ rs) r e = ground (arith, find_row-append k rs r)

  pub find_row-append_some :
      (k : String) (rs ss : List A) {r : A}
      → find_row k rs ≡ some r
      → find_row k (rs ++ ss) ≡ some r
  unfolding find_row
  find_row-append_some k [] ss e = ground arith
  find_row-append_some k (x ∷ rs) ss {r} e = ground (arith, find_row-append_some k rs ss {r = r})

  -- An UPDATE that keeps the primary keys.
  pub find_row-map :
      (k : String) (f : A → A) (rs : List A)
      → ((r : A) → key (f r) ≡ key r)
      → find_row k (map f rs) ≡ Option.map f (find_row k rs)
  unfolding find_row
  find_row-map k f [] same = refl
  find_row-map k f (r ∷ rs) same = ground (arith, same r, find_row-map k f rs same)

  -- The primary key: each row is the one that its key finds.
  abbrev pub IsKeyed : List A → Type 0
  IsKeyed rs = All (λ r. find_row (key r) rs ≡ some r) rs

  pub IsKeyed-map :
      (f : A → A) (rs : List A) → ((r : A) → key (f r) ≡ key r) → IsKeyed rs → IsKeyed (map f rs)
  IsKeyed-map f rs same keyed = go rs keyed
    where
      go :
          (zs : List A)
          → All (λ r. find_row (key r) rs ≡ some r) zs
          → All (λ r. find_row (key r) (map f rs) ≡ some r) (map f zs)
      go [] h = tt
      go (z ∷ zs) h = (cc (find_row-map (key z) f rs same, same z, h.0), go zs h.1)

  pub IsKeyed-append :
      (rs : List A) (r : A) → find_row (key r) rs ≡ none → IsKeyed rs → IsKeyed (rs ++ (r ∷ []))
  IsKeyed-append rs r absent keyed = go rs keyed
    where
      last : find_row (key r) (rs ++ (r ∷ [])) ≡ some r
      last = ground (arith, find_row-append (key r) rs r absent, eq_refl (key r))

      go :
          (zs : List A)
          → All (λ x. find_row (key x) rs ≡ some x) zs
          → All (λ x. find_row (key x) (rs ++ (r ∷ [])) ≡ some x) (zs ++ (r ∷ []))
      go [] h = (last, tt)
      go (z ∷ zs) h = (find_row-append_some (key z) rs (r ∷ []) h.0, go zs h.1)

  -- UPDATE ... WHERE key IN (the keys of some rows) meets a row just if it is one of them.
  pub some_of-keep :
      (p : A → Bool) (k : String) (rs : List A) {q : A}
      → IsKeyed rs
      → find_row k rs ≡ some q
      → some_of (λ i. i == k) (map key (keep p rs)) ≡ p q
  unfolding find_row
  some_of-keep p k rs {q} keyed found = ground (arith, go rs keyed, found)
    where
      go :
          (zs : List A)
          → All (λ r. find_row (key r) rs ≡ some r) zs
          → some_of (λ i. i == k) (map key (keep p zs)) ≡ (p q && is_some (find_row k zs))
      go [] h = ground arith
      go (z ∷ zs) h = ground (arith, h.0, found, eq_iff (key z) k, go zs h.1)

  -- UPDATE ... WHERE key = k
  unfoldable pub update_rows : String → (A → A) → List A → List A
  update_rows k f rs = map (λ r. if key r == k then f r else r) rs

  pub find_row-update_rows :
      (k j : String) (f : A → A) (rs : List A)
      → ((r : A) → key r ≡ k → key (f r) ≡ k)
      → find_row j (update_rows k f rs)
        ≡ (if k == j then Option.map f (find_row j rs) else find_row j rs)
  unfolding update_rows find_row
  find_row-update_rows k j f [] same = ground arith
  find_row-update_rows k j f (r ∷ rs) same = ground (
    arith,
    same r,
    eq_iff k j,
    eq_iff (key r) k,
    eq_iff (key r) j,
    find_row-update_rows k j f rs same,
  )

  pub IsKeyed-update_rows :
      (k : String) (f : A → A) (rs : List A)
      → ((r : A) → key r ≡ k → key (f r) ≡ k)
      → IsKeyed rs
      → IsKeyed (update_rows k f rs)
  unfolding update_rows
  IsKeyed-update_rows k f rs same keyed =
      IsKeyed-map (λ r. if key r == k then f r else r) rs
        (λ r. ground (arith, same r, eq_iff (key r) k)) keyed
