-- ===== src/Task/Selection.antt =====
-- Which rows `list_recoverable_maintenance_tasks` of app/mneme/crud/task_record.py hands over.
use mathlib.Core.Option
use reminder.Prelude.{
  ℕ, suc, ◌≤◌, ◌≡◌, ◌≢◌, refl, sym, ap, ◌∙◌, ◌⊎◌, inl, inr, true, false, Bool, some, List, [], ◌∷◌,
  ◌==◌, leb, eq_iff, arith, length, take, keep, sort_by, insert_by, All, All-sort_by, take_all,
  find_row, find_row-map, Bool-cases,
}
use reminder.Task.Record.{
  TaskRecord, get_task_record_by_id, is_recoverable, recover_row,
  list_recoverable_maintenance_tasks,
}

module _ {A : Type 0} where
  abbrev Has : A → List A → Type 0
  Has c [] = ⊥
  Has c (x ∷ xs) = (c ≡ x) ⊎ Has c xs

  Has-keep : (p : A → Bool) (c : A) (xs : List A) → p c ≡ true → Has c xs → Has c (keep p xs)
  Has-keep p c [] e h = h
  Has-keep p c (x ∷ xs) e (inl here) = rw (ap p (sym here) ∙ e) (inl here)
  Has-keep p c (x ∷ xs) e (inr h) = elim (Bool-cases (p x)) [
    | inl kept ↦ rw kept (inr (Has-keep p c xs e h))
    | inr left ↦ rw left (Has-keep p c xs e h)
  ]

  keep-All : (Q : A → Type 0) (p : A → Bool) (xs : List A) → All Q xs → All Q (keep p xs)
  keep-All Q p [] h = tt
  keep-All Q p (x ∷ xs) h = elim (Bool-cases (p x)) [
    | inl kept ↦ rw kept (h.0, keep-All Q p xs h.1)
    | inr left ↦ rw left (keep-All Q p xs h.1)
  ]

  length-keep : (p : A → Bool) (xs : List A) → length (keep p xs) ≤ length xs
  length-keep p [] = omega arith
  length-keep p (x ∷ xs) = ground (arith, length-keep p xs)

  module _ (rank : A → ℕ) where
    Has-insert_by : (c x : A) (xs : List A) → (c ≡ x) ⊎ Has c xs → Has c (insert_by rank x xs)
    unfolding insert_by
    Has-insert_by c x [] h = h
    Has-insert_by c x (y ∷ ys) h = elim (Bool-cases (leb (rank x) (rank y))) [
      | inl first ↦ rw first h
      | inr later ↦ rw later (below (λ k. Has-insert_by c x ys k) h)
    ]
      where
        below :
            ((c ≡ x) ⊎ Has c ys → Has c (insert_by rank x ys))
            → (c ≡ x) ⊎ (c ≡ y) ⊎ Has c ys
            → (c ≡ y) ⊎ Has c (insert_by rank x ys)
        below more (inl e) = inr (more (inl e))
        below more (inr (inl e)) = inl e
        below more (inr (inr k)) = inr (more (inr k))

    Has-sort_by : (c : A) (xs : List A) → Has c xs → Has c (sort_by rank xs)
    unfolding sort_by
    Has-sort_by c [] h = h
    Has-sort_by c (x ∷ xs) (inl e) = Has-insert_by c x (sort_by rank xs) (inl e)
    Has-sort_by c (x ∷ xs) (inr h) = Has-insert_by c x (sort_by rank xs) (inr (Has-sort_by c xs h))

    length-insert_by : (x : A) (xs : List A) → length (insert_by rank x xs) ≡ suc (length xs)
    unfolding insert_by
    length-insert_by x [] = refl
    length-insert_by x (y ∷ ys) = ground (arith, length-insert_by x ys)

    length-sort_by : (xs : List A) → length (sort_by rank xs) ≡ length xs
    unfolding sort_by
    length-sort_by [] = refl
    length-sort_by (x ∷ xs) = omega (arith, length-insert_by x (sort_by rank xs), length-sort_by xs)

-- The only row of an id is the one that is found.
find-only :
    (c : TaskRecord) (rows : List TaskRecord)
    → Has c rows
    → All (λ t. t.id ≡ c.id → t ≡ c) rows
    → get_task_record_by_id c.id rows ≡ some c
unfolding get_task_record_by_id find_row
find-only c [] h only = absurd h
find-only c (x ∷ rows) h only = elim (Bool-cases (x.id == c.id)) [
  | inl same ↦ rw same (ap some (only.0 ((eq_iff x.id c.id).0 same)))
  | inr other ↦ rw other (find-only c rows (rest other h) only.1)
]
  where
    rest : (x.id == c.id) ≡ false → (c ≡ x) ⊎ Has c rows → Has c rows
    rest other (inl e) =
        let same : (x.id == c.id) ≡ true =
          (eq_iff x.id c.id).1 (sym (ap (λ (t : TaskRecord). t.id) e)) in
        absurd (ground (arith, other, same))
    rest other (inr k) = k

others_only :
    (c : TaskRecord) (others : List TaskRecord)
    → All (λ t. t.id ≢ c.id) others
    → All (λ t. t.id ≡ c.id → t ≡ c) others
others_only c [] h = tt
others_only c (t ∷ others) h = (λ e. absurd (h.0 e), others_only c others h.1)

-- A row that meets the condition is handed over, recovered, where the limit is not below the rows.
pub found-recoverable :
    (pending_before running_before limit : ℕ) (c : TaskRecord) (others : List TaskRecord)
    → is_recoverable pending_before running_before c ≡ true
    → suc (length others) ≤ limit
    → All (λ t. t.id ≢ c.id) others
    → get_task_record_by_id c.id
        (list_recoverable_maintenance_tasks pending_before running_before limit (c ∷ others))
      ≡ some (recover_row c)
unfolding list_recoverable_maintenance_tasks get_task_record_by_id recover_row
found-recoverable pending_before running_before limit c others e room fresh =
    let rank = λ (t : TaskRecord). t.updated_at in
    let p = is_recoverable pending_before running_before in
    let rows = c ∷ others in
    let chosen = sort_by rank (keep p rows) in
    let all_of : take limit chosen ≡ chosen =
      take_all limit chosen
        (omega (arith, length-sort_by rank (keep p rows), length-keep p rows)) in
    let found : get_task_record_by_id c.id chosen ≡ some c =
      find-only c chosen (Has-sort_by rank c (keep p rows) (Has-keep p c rows e (inl refl))) (
        All-sort_by rank _ (keep p rows)
          (keep-All _ p rows ((λ k. refl), others_only c others fresh))) in
    find_row-map (λ (t : TaskRecord). t.id) c.id recover_row (take limit chosen) (λ t. ground arith)
    ∙ ap (λ l. Option.map recover_row (get_task_record_by_id c.id l)) all_of
    ∙ ap (λ o. Option.map recover_row o) found
