-- ===== src/MultiAgent/Allocation.antt =====
-- How the coordinator shares out the retrieval budget.
use native.Mathlib.Nat.{mul-suc, mul-zero, mul_comm, div-add-mod, mod-lt}
use reminder.Prelude.{
  ℕ, zero, suc, ◌+◌, ◌-◌, ◌*◌, ◌/◌, ◌%◌, ◌≤◌, ◌<◌, String, ◌≡◌, refl, sym, ap, ◌∙◌, Bool, true,
  false, List, [], ◌∷◌, map, length, ltb, leb, if◌then◌else◌, arith, Bool-cases, inl, inr,
}
use reminder.Prelude.Failing.{Attempt, ok, raised}
use reminder.MultiAgent.Budget.{
  MultiAgentBudgetLimits, SharedMultiAgentBudget, new_budget, remaining, reserve_retrieval,
  reserve_assignments,
}
use reminder.MultiAgent.Coordinator.{
  EvidenceSource, Request, SourceAssignment, enabled_sources, total_top_k, share_of, assign,
  assignments_of,
}

abbrev pub sum_top_k : List SourceAssignment → ℕ
sum_top_k [] = 0
sum_top_k (a ∷ rest) = a.top_k + sum_top_k rest

share_bound :
    (base extra index : ℕ)
    → 1 ≤ base
    → share_of base extra index ≤ base + (if ltb index extra then 1 else 0)
share_bound base extra index h = ground (arith, h)

share_spent :
    (extra index : ℕ) → (if ltb index extra then 1 else 0) + (extra - suc index) ≤ extra - index
share_spent extra index = ground arith

sum-assign :
    (question : String) (base extra index : ℕ) (sources : List EvidenceSource)
    → 1 ≤ base
    → sum_top_k (assign question base extra index sources) ≤ base * length sources + (extra - index)
unfolding assign
sum-assign question base extra index [] h = omega arith
sum-assign question base extra index (s ∷ ss) h = omega (
  arith,
  share_bound base extra index h,
  share_spent extra index,
  sum-assign question base extra (suc index) ss h,
  mul-suc base (length ss),
)

quotient_positive : (n total : ℕ) → 1 ≤ n → n ≤ total → 1 ≤ total / n
quotient_positive n total h k = go (total / n) (div-add-mod total n)
  where
    go : (q : ℕ) → n * q + total % n ≡ total → 1 ≤ q
    go zero e = absurd (omega (arith, e, mod-lt total {m = n} h, mul-zero n))
    go (suc q) e = omega arith

-- The shares of at least one source add up to no more than the retrieval limit, where the limit and
-- the requested amount leave each source at least one.
pub allocation_bounded :
    (limits : MultiAgentBudgetLimits) (q : Request)
    → 1 ≤ length (enabled_sources q)
    → length (enabled_sources q) ≤ total_top_k limits q.top_k (length (enabled_sources q))
    → sum_top_k (assignments_of limits q) ≤ limits.max_retrieval_top_k
unfolding assignments_of
allocation_bounded limits q some_source enough =
    let n = length (enabled_sources q) in
    let total = total_top_k limits q.top_k n in
    omega (
      arith,
      sum-assign q.question (total / n) (total % n) 0 (enabled_sources q)
          (quotient_positive n total some_source enough),
      div-add-mod total n,
      mul_comm n (total / n),
    )

-- The reservations of a list of assignments, all at one instant.
abbrev pub stamped : (now : ℕ) → List SourceAssignment → List (ℕ × ℕ)
stamped now xs = map (λ a. (now, a.top_k)) xs

reserve_ok :
    (now top_k : ℕ) (b : SharedMultiAgentBudget)
    → 1 ≤ remaining now b
    → b.retrieval_top_k + top_k ≤ b.limits.max_retrieval_top_k
    → reserve_retrieval now top_k b
      ≡ (ok tt, record b { retrieval_top_k = b.retrieval_top_k + top_k })
unfolding reserve_retrieval
reserve_ok now top_k b time fits =
    let early : leb (remaining now b) 0 ≡ false = ground (arith, time) in
    let small : ltb b.limits.max_retrieval_top_k (b.retrieval_top_k + top_k) ≡ false =
      ground (arith, fits) in
    rw (reserve_retrieval, early, small) refl

reserve_next :
    (now top_k : ℕ) (rest : List (ℕ × ℕ)) (b later : SharedMultiAgentBudget)
    → reserve_retrieval now top_k b ≡ (ok tt, later)
    → (reserve_assignments ((now, top_k) ∷ rest) b).0 ≡ (reserve_assignments rest later).0
unfolding reserve_assignments
reserve_next now top_k rest b later e =
    rw (reserve_assignments, e) (ap (λ r. (reserve_assignments rest r.1).0) e)

reserves :
    (now : ℕ) (xs : List SourceAssignment) (b : SharedMultiAgentBudget)
    → 1 ≤ remaining now b
    → b.retrieval_top_k + sum_top_k xs ≤ b.limits.max_retrieval_top_k
    → (reserve_assignments (stamped now xs) b).0 ≡ ok tt
unfolding reserve_assignments
reserves now [] b time fits = refl
reserves now (x ∷ xs) b time fits =
    let later = record b { retrieval_top_k = b.retrieval_top_k + x.top_k } in
    reserve_next now x.top_k (stamped now xs) b later
      (reserve_ok now x.top_k b time (omega (arith, fits)))
    ∙ reserves now xs later time (omega (arith, fits))

-- The first round of a decision that leaves each of its sources at least one is reserved in full from
-- a new budget, at an instant before the deadline.
pub first_round_reserved :
    (limits : MultiAgentBudgetLimits) (q : Request) (start now : ℕ)
    → 1 ≤ length (enabled_sources q)
    → length (enabled_sources q) ≤ total_top_k limits q.top_k (length (enabled_sources q))
    → now < start + limits.deadline
    → start ≤ now
    → (reserve_assignments (stamped now (assignments_of limits q)) (new_budget limits start)).0
      ≡ ok tt
first_round_reserved limits q start now some_source enough early later =
    reserves now (assignments_of limits q) (new_budget limits start) (omega (arith, early, later))
      (omega (arith, allocation_bounded limits q some_source enough))

abbrev pub is_ok {ℓ} : {X : Type 0} {A : Type ℓ} → Attempt X A → Bool
is_ok (ok a) = true
is_ok (raised e) = false

reserve_over :
    (now top_k : ℕ) (rest : List (ℕ × ℕ)) (b : SharedMultiAgentBudget)
    → 1 ≤ remaining now b
    → ltb b.limits.max_retrieval_top_k (b.retrieval_top_k + top_k) ≡ true
    → is_ok (reserve_assignments ((now, top_k) ∷ rest) b).0 ≡ false
unfolding reserve_assignments reserve_retrieval
reserve_over now top_k rest b time over =
    let early : leb (remaining now b) 0 ≡ false = ground (arith, time) in
    ground (arith, early, over)

-- Before the deadline, and while the budget is within its limit, the loop of reservations succeeds
-- just if the shares, added to what is reserved already, are within the limit.
pub reserve_decides :
    (now : ℕ) (xs : List SourceAssignment) (b : SharedMultiAgentBudget)
    → 1 ≤ remaining now b
    → b.retrieval_top_k ≤ b.limits.max_retrieval_top_k
    → is_ok (reserve_assignments (stamped now xs) b).0
      ≡ leb (b.retrieval_top_k + sum_top_k xs) b.limits.max_retrieval_top_k
unfolding reserve_assignments
reserve_decides now [] b time fits = ground (arith, fits)
reserve_decides now (x ∷ xs) b time fits =
    elim (Bool-cases (ltb b.limits.max_retrieval_top_k (b.retrieval_top_k + x.top_k))) [
      | inl over ↦
          let whole : leb (b.retrieval_top_k + (x.top_k + sum_top_k xs))
                b.limits.max_retrieval_top_k
              ≡ false =
            ground (arith, over) in
          reserve_over now x.top_k (stamped now xs) b time over ∙ sym whole
      | inr small ↦
          let later = record b { retrieval_top_k = b.retrieval_top_k + x.top_k } in
          let room : b.retrieval_top_k + x.top_k ≤ b.limits.max_retrieval_top_k =
            ground (arith, small) in
          let sums : leb (b.retrieval_top_k + x.top_k + sum_top_k xs) b.limits.max_retrieval_top_k
              ≡ leb (b.retrieval_top_k + (x.top_k + sum_top_k xs)) b.limits.max_retrieval_top_k =
            ground arith in
          ap is_ok
            (reserve_next now x.top_k (stamped now xs) b later (reserve_ok now x.top_k b time room))
          ∙ (reserve_decides now xs later time room ∙ sums)
    ]
