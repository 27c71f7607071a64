-- ===== src/MultiAgent/Coordinator.antt =====
-- `RAGCoordinator.decide` (app/mneme/memoria/server/multi_agent/coordinator.py). The settings are a
-- record; the digest of the rollout key, as a number, is an argument, as hashlib gives it.
use reminder.Prelude.{
  ℕ, suc, ◌+◌, ◌*◌, ◌/◌, ◌%◌, min, max, String, Bool, true, false, not, ◌&&◌, List, [], ◌∷◌, ltb,
  leb, eqb, length, ◌==◌, some_of, if◌then◌else◌,
}
use reminder.MultiAgent.Budget.{MultiAgentBudgetLimits}

pub data EvidenceSource : Type 0 where
  document memory profile relation : EvidenceSource

pub data ExecutionMode : Type 0 where
  single multi : ExecutionMode

-- What the request asks for.
pub data RequestedMode : Type 0 where
  ask_auto ask_single ask_multi : RequestedMode

-- What is read of `settings`; the allowed modes are split and stripped.
pub record Settings : Type 0 where
  pub feature_enabled : Bool
  pub allowed_modes : List String
  pub rollout_percent : ℕ

-- What is read of the request and of the retrieval plan.
pub record Request : Type 0 where
  pub execution_mode : RequestedMode
  pub answer_mode : String
  pub question : String
  pub top_k : ℕ
  pub document : Bool
  pub memory : Bool
  pub profile : Bool
  pub relations : Bool

-- The role is the one of the source (SOURCE_ROLES).
pub record SourceAssignment : Type 0 where
  pub source_type : EvidenceSource
  pub query : String
  pub top_k : ℕ

pub record CoordinatorDecision : Type 0 where
  pub execution_mode : ExecutionMode
  pub reason_code : String
  pub assignments : List SourceAssignment
  pub allow_supplemental : Bool

abbrev pub asks_multi : RequestedMode → Bool
asks_multi ask_multi = true
asks_multi _ = false

abbrev pub asks_single : RequestedMode → Bool
asks_single ask_single = true
asks_single _ = false

abbrev pub when : Bool → EvidenceSource → List EvidenceSource → List EvidenceSource
when true source rest = source ∷ rest
when false source rest = rest

abbrev pub enabled_sources : Request → List EvidenceSource
enabled_sources q =
    when q.document document
      (when q.memory memory (when q.profile profile (when q.relations relation [])))

abbrev pub total_top_k : MultiAgentBudgetLimits → (top_k sources : ℕ) → ℕ
total_top_k limits top_k sources = min limits.max_retrieval_top_k (top_k * sources)

abbrev pub share_of : (base extra index : ℕ) → ℕ
share_of base extra index = max 1 (min 10 (base + (if ltb index extra then 1 else 0)))

-- enumerate(enabled), from `index`
unfoldable pub assign :
    (question : String) → (base extra index : ℕ) → List EvidenceSource → List SourceAssignment
assign question base extra index [] = []
assign question base extra index (source ∷ sources) =
    record { source_type = source; query = question; top_k = share_of base extra index }
    ∷ assign question base extra (suc index) sources

unfoldable pub assignments_of : MultiAgentBudgetLimits → Request → List SourceAssignment
unfolding assign
assignments_of limits q =
    let sources = enabled_sources q in
    let total = total_top_k limits q.top_k (length sources) in
    assign q.question (total / length sources) (total % length sources) 0 sources

abbrev pub is_allowed : Settings → Request → Bool
is_allowed settings q = some_of (λ m. m == q.answer_mode) settings.allowed_modes

abbrev pub in_rollout : Settings → (digest : ℕ) → Bool
in_rollout settings digest = ltb (digest % 100) settings.rollout_percent

abbrev pub use_multi : Settings → (digest : ℕ) → Request → Bool
use_multi settings digest q =
    settings.feature_enabled
    && in_rollout settings digest
    && is_allowed settings q
    && asks_multi q.execution_mode
    && leb 2 (length (enabled_sources q))

abbrev pub single_reason : Settings → (digest : ℕ) → Request → String
single_reason settings digest q =
    if asks_single q.execution_mode
    then "explicit_single"
    else (if asks_multi q.execution_mode && not settings.feature_enabled
        then "feature_disabled"
        else (if asks_multi q.execution_mode && not (in_rollout settings digest)
            then "rollout_excluded"
            else (if asks_multi q.execution_mode && not (is_allowed settings q)
                then "mode_not_enabled"
                else "single_source_or_fast_path")))

unfoldable pub decide :
    Settings → MultiAgentBudgetLimits → (digest : ℕ) → Request → CoordinatorDecision
unfolding assignments_of
decide settings limits digest q =
    if use_multi settings digest q
    then record {
      execution_mode = multi;
      reason_code = "explicit_multi";
      assignments = assignments_of limits q;
      allow_supplemental = eqb limits.max_supplemental_rounds 1;
    }
    else record {
      execution_mode = single;
      reason_code = single_reason settings digest q;
      assignments = [];
      allow_supplemental = false;
    }
