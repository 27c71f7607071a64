-- ===== src/MultiAgent/Budget.antt =====
-- `SharedMultiAgentBudget` (app/mneme/memoria/server/multi_agent/budget.py) and the reservations of
-- `_run_assignments` (executor.py beside it). Times are in a common unit; a call comes with its
-- instant. The limits on models and costs are checked by the generation, not here.
use reminder.Prelude.{ℕ, ◌+◌, ◌-◌, suc, List, [], ◌∷◌, ltb, leb, if◌then◌else◌}
use reminder.Prelude.Failing.{Attempt, ok, raised}

pub record MultiAgentBudgetLimits : Type 0 where
  pub deadline : ℕ
  pub max_retrieval_top_k : ℕ
  pub max_supplemental_rounds : ℕ

pub data BudgetExceeded : Type 0 where
  deadline_exceeded retrieval_exceeded supplemental_exceeded : BudgetExceeded

pub record SharedMultiAgentBudget : Type 0 where
  pub limits : MultiAgentBudgetLimits
  pub started : ℕ
  pub retrieval_top_k : ℕ
  pub supplemental_rounds : ℕ

abbrev pub new_budget : MultiAgentBudgetLimits → (now : ℕ) → SharedMultiAgentBudget
new_budget limits now = record {
  limits = limits;
  started = now;
  retrieval_top_k = 0;
  supplemental_rounds = 0;
}

abbrev pub remaining : (now : ℕ) → SharedMultiAgentBudget → ℕ
remaining now b = b.limits.deadline - (now - b.started)

abbrev pub Reserved : Type 0
Reserved = Attempt BudgetExceeded (Unit {0}) × SharedMultiAgentBudget

unfoldable pub reserve_retrieval : (now top_k : ℕ) → SharedMultiAgentBudget → Reserved
reserve_retrieval now top_k b =
    if leb (remaining now b) 0
    then (raised deadline_exceeded, b)
    else (if ltb b.limits.max_retrieval_top_k (b.retrieval_top_k + top_k)
        then (raised retrieval_exceeded, b)
        else (ok tt, record b { retrieval_top_k = b.retrieval_top_k + top_k }))

unfoldable pub reserve_supplemental_round : (now : ℕ) → SharedMultiAgentBudget → Reserved
reserve_supplemental_round now b =
    if leb (remaining now b) 0
    then (raised deadline_exceeded, b)
    else (if leb b.limits.max_supplemental_rounds b.supplemental_rounds
        then (raised supplemental_exceeded, b)
        else (ok tt, record b { supplemental_rounds = suc b.supplemental_rounds }))

-- The loop before the roles start: each assignment with the instant of its reservation. What was
-- reserved before one raises stays reserved.
unfoldable pub reserve_assignments : List (ℕ × ℕ) → SharedMultiAgentBudget → Reserved
unfolding reserve_retrieval
reserve_assignments [] b = (ok tt, b)
reserve_assignments ((now, top_k) ∷ rest) b =
    let (result, b') = reserve_retrieval now top_k b in
    let others = reserve_assignments rest b' in
    elim result [ raised e ↦ (raised e, b') | ok done ↦ others ]
