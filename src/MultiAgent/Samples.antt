-- ===== src/MultiAgent/Samples.antt =====
-- A question to documents, memories and relations under the default limits.
use reminder.Prelude.{◌+◌, ◌≤◌, leb, ◌≡◌, true, false, List, [], ◌∷◌, arith}
use reminder.Prelude.Failing.{ok}
use reminder.MultiAgent.Budget.{MultiAgentBudgetLimits, new_budget, reserve_assignments}
use reminder.MultiAgent.Coordinator.{ask_multi, Request, assignments_of}
use reminder.MultiAgent.Reservations.{Call, retrieval, supplemental, call_all, reservations_bounded}
use reminder.MultiAgent.Allocation.{
  is_ok, reserve_decides, sum_top_k, stamped, first_round_reserved,
}

abbrev limits : MultiAgentBudgetLimits
limits = record { deadline = 20; max_retrieval_top_k = 16; max_supplemental_rounds = 1 }

abbrev question : Request
question = record {
  execution_mode = ask_multi;
  answer_mode = "kb_qa";
  question = "q";
  top_k = 7;
  document = true;
  memory = true;
  profile = false;
  relations = true;
}

abbrev calls : List Call
calls = retrieval 1 10 ∷ (retrieval 2 10 ∷ (supplemental 3 ∷ (supplemental 4 ∷ [])))

reservations_bounded_example :
    ((call_all calls (new_budget limits 0)).retrieval_top_k ≤ 16)
    × ((call_all calls (new_budget limits 0)).supplemental_rounds ≤ 1)
reservations_bounded_example = reservations_bounded limits 0 calls

first_round_reserved_example :
    (reserve_assignments (stamped 5 (assignments_of limits question)) (new_budget limits 0)).0
    ≡ ok tt
first_round_reserved_example =
    first_round_reserved limits question 0 5 (omega arith) (omega arith) (omega arith) (omega arith)

reserve_decides_example :
    is_ok (reserve_assignments (stamped 5 (assignments_of limits question)) (new_budget limits 0)).0
    ≡ leb (0 + sum_top_k (assignments_of limits question)) 16
reserve_decides_example =
    reserve_decides 5 (assignments_of limits question) (new_budget limits 0) (omega arith)
      (omega arith)
