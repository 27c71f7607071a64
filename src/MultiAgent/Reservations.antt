-- ===== src/MultiAgent/Reservations.antt =====
-- What the shared budget promises.
use reminder.Prelude.{
  ℕ, ◌+◌, ◌≤◌, ◌≡◌, refl, ap, inl, inr, List, [], ◌∷◌, ltb, leb, arith, Bool-cases,
}
use reminder.Prelude.Failing.{ok, raised}
use reminder.MultiAgent.Budget.{
  MultiAgentBudgetLimits, SharedMultiAgentBudget, new_budget, remaining, Reserved,
  reserve_retrieval, reserve_supplemental_round, reserve_assignments,
}

-- One call on the budget, at an instant.
pub data Call : Type 0 where
  retrieval : (now top_k : ℕ) → Call
  supplemental : (now : ℕ) → Call
  assignments : List (ℕ × ℕ) → Call

abbrev pub call_budget : Call → SharedMultiAgentBudget → SharedMultiAgentBudget
call_budget (retrieval now top_k) b = (reserve_retrieval now top_k b).1
call_budget (supplemental now) b = (reserve_supplemental_round now b).1
call_budget (assignments xs) b = (reserve_assignments xs b).1

abbrev pub call_all : List Call → SharedMultiAgentBudget → SharedMultiAgentBudget
call_all [] b = b
call_all (c ∷ cs) b = call_all cs (call_budget c b)

-- Within the limits that the budget was made with.
pub record IsWithin (limits : MultiAgentBudgetLimits) (b : SharedMultiAgentBudget) : Type 0 where
  pub same : b.limits ≡ limits
  pub retrieval_fits : b.retrieval_top_k ≤ limits.max_retrieval_top_k
  pub rounds_fit : b.supplemental_rounds ≤ limits.max_supplemental_rounds

reserve-IsWithin :
    (limits : MultiAgentBudgetLimits) (now top_k : ℕ) (b : SharedMultiAgentBudget)
    → IsWithin limits b
    → IsWithin limits (reserve_retrieval now top_k b).1
unfolding reserve_retrieval
reserve-IsWithin limits now top_k b w = elim (Bool-cases (leb (remaining now b) 0)) [
  | inl late ↦ rw late w
  | inr early ↦ elim (Bool-cases (ltb b.limits.max_retrieval_top_k (b.retrieval_top_k + top_k))) [
    | inl over ↦ rw (early, over) w
    | inr fits ↦
        rw (early, fits)
          (record {
            same = w.same;
            retrieval_fits = ground (arith, fits, ap (λ l. l.max_retrieval_top_k) w.same);
            rounds_fit = w.rounds_fit;
          })
  ]
]

round-IsWithin :
    (limits : MultiAgentBudgetLimits) (now : ℕ) (b : SharedMultiAgentBudget)
    → IsWithin limits b
    → IsWithin limits (reserve_supplemental_round now b).1
unfolding reserve_supplemental_round
round-IsWithin limits now b w = elim (Bool-cases (leb (remaining now b) 0)) [
  | inl late ↦ rw late w
  | inr early ↦ elim (Bool-cases (leb b.limits.max_supplemental_rounds b.supplemental_rounds)) [
    | inl over ↦ rw (early, over) w
    | inr fits ↦
        rw (early, fits)
          (record {
            same = w.same;
            retrieval_fits = w.retrieval_fits;
            rounds_fit = ground (arith, fits, ap (λ l. l.max_supplemental_rounds) w.same);
          })
  ]
]

assignments-IsWithin :
    (limits : MultiAgentBudgetLimits) (xs : List (ℕ × ℕ)) (b : SharedMultiAgentBudget)
    → IsWithin limits b
    → IsWithin limits (reserve_assignments xs b).1
unfolding reserve_assignments
assignments-IsWithin limits [] b w = w
assignments-IsWithin limits ((now, top_k) ∷ rest) b w =
    go (reserve_retrieval now top_k b) (reserve-IsWithin limits now top_k b w) (
      assignments-IsWithin limits rest (reserve_retrieval now top_k b).1
        (reserve-IsWithin limits now top_k b w))
  where
    go :
        (r : Reserved)
        → IsWithin limits r.1
        → IsWithin limits (reserve_assignments rest r.1).1
        → IsWithin limits
            (elim r.0 as (λ _. Reserved) [
              | raised e ↦ (raised e, r.1)
              | ok done ↦ reserve_assignments rest r.1
            ]).1
    go (raised e, b') v later = v
    go (ok done, b') v later = later

-- Whatever is reserved from a new budget, by whatever calls at whatever instants, whether they raise or
-- not: the reserved top-k never exceeds its limit, nor the supplemental rounds theirs.
pub reservations_bounded :
    (limits : MultiAgentBudgetLimits) (start : ℕ) (calls : List Call)
    → ((call_all calls (new_budget limits start)).retrieval_top_k ≤ limits.max_retrieval_top_k)
      × ((call_all calls (new_budget limits start)).supplemental_rounds
          ≤ limits.max_supplemental_rounds)
reservations_bounded limits start calls =
    let w =
      go calls (new_budget limits start)
        (record { same = refl; retrieval_fits = omega arith; rounds_fit = omega arith }) in
    (w.retrieval_fits, w.rounds_fit)
  where
    go :
        (cs : List Call) (b : SharedMultiAgentBudget)
        → IsWithin limits b
        → IsWithin limits (call_all cs b)
    go [] b w = w
    go (retrieval now top_k ∷ cs) b w = go cs _ (reserve-IsWithin limits now top_k b w)
    go (supplemental now ∷ cs) b w = go cs _ (round-IsWithin limits now b w)
    go (assignments xs ∷ cs) b w = go cs _ (assignments-IsWithin limits xs b w)
