-- ===== src/Context/Source.antt =====
-- The sources of a context, their order of precedence and their limits.
use reminder.Prelude.{ℕ, String}

pub data ContextSourceType : Type 0 where
  system_policy user_directive approval tool_failure citation history_summary history_message
        inferred_memory :
      ContextSourceType

pub data ContextSourceOutcome : Type 0 where
  included preserved truncated dropped : ContextSourceOutcome

-- The validator of `source_id` has run.
pub record ContextSource : Type 0 where
  pub source_id : String
  pub source_type : ContextSourceType
  pub content : String

pub record ContextSourceDecision : Type 0 where
  pub source_id : String
  pub source_type : ContextSourceType
  pub outcome : ContextSourceOutcome
  pub input_chars : ℕ
  pub output_chars : ℕ
  pub reason : String

-- _SOURCE_PRIORITY
abbrev pub source_priority : ContextSourceType → ℕ
source_priority system_policy = 0
source_priority user_directive = 1
source_priority approval = 2
source_priority citation = 3
source_priority tool_failure = 4
source_priority inferred_memory = 5
source_priority history_message = 6
source_priority history_summary = 7

-- _SOURCE_CHAR_LIMIT
abbrev pub source_char_limit : ContextSourceType → ℕ
source_char_limit system_policy = 2000
source_char_limit user_directive = 2000
source_char_limit approval = 800
source_char_limit citation = 256
source_char_limit tool_failure = 512
source_char_limit inferred_memory = 1000
source_char_limit history_message = 2000
source_char_limit history_summary = 4000

abbrev pub type_name : ContextSourceType → String
type_name system_policy = "system_policy"
type_name user_directive = "user_directive"
type_name approval = "approval"
type_name tool_failure = "tool_failure"
type_name citation = "citation"
type_name history_summary = "history_summary"
type_name history_message = "history_message"
type_name inferred_memory = "inferred_memory"
