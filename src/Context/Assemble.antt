-- ===== src/Context/Assemble.antt =====
-- `assemble_critical_context`. The cleaning of a text (regular expressions) and the floating-point
-- arithmetic with `chars_per_token` are parameters.
use Prim.Native.String.{◌++◌}
use reminder.Prelude.{
  ℕ, ◌+◌, ◌-◌, min, max, String, Bool, true, false, ◌||◌, List, [], ◌∷◌, map, ltb, leb, eqb,
  if◌then◌else◌, chars, take_chars, sort_by,
}
use reminder.Context.Source.{
  ContextSource, ContextSourceDecision, ContextSourceOutcome, preserved, truncated, dropped,
  source_priority, source_char_limit, type_name,
}

-- `whole_chars n` is int(n * safe_chars_per_token), `tokens_in n` is math.ceil(n / safe_chars_per_token).
pub record Scale : Type 0 where
  pub whole_chars : ℕ → ℕ
  pub tokens_in : ℕ → ℕ

pub record ContextAssemblyReport : Type 0 where
  pub token_budget : ℕ
  pub estimated_tokens_before : ℕ
  pub estimated_tokens_after : ℕ
  pub decisions : List ContextSourceDecision

pub record CriticalContextAssembly : Type 0 where
  pub text : String
  pub report : ContextAssemblyReport

-- "\n".join(lines)
abbrev pub join_lines : List String → String
join_lines [] = ""
join_lines (line ∷ []) = line
join_lines (line ∷ next ∷ rest) = line ++ ("\n" ++ join_lines (next ∷ rest))

abbrev pub total : List ℕ → ℕ
total [] = 0
total (n ∷ ns) = n + total ns

-- _estimate_tokens
unfoldable pub estimate_tokens : Scale → String → ℕ
estimate_tokens scale value =
    if eqb (chars value) 0 then 0 else max 1 (scale.tokens_in (chars value))

module _ (sanitize_context_text : String → String) where
  abbrev pub prefix_of : ContextSource → String
  prefix_of source = "[" ++ (type_name source.source_type ++ (":" ++ (source.source_id ++ "] ")))

  abbrev pub bounded_content : ContextSource → String
  bounded_content source =
      take_chars (source_char_limit source.source_type - chars (prefix_of source))
        (sanitize_context_text source.content)

  abbrev pub candidate_of : ContextSource → String
  candidate_of source =
      if eqb (chars (bounded_content source)) 0
      then ""
      else prefix_of source ++ bounded_content source

  abbrev pub separator : (any_lines : Bool) → ℕ
  separator any_lines = if any_lines then 1 else 0

  -- candidate[:available_chars] if available_chars > 0 else ""
  abbrev pub cut : (remaining_chars : ℕ) → (any_lines : Bool) → ContextSource → String
  cut remaining_chars any_lines source =
      take_chars (remaining_chars - separator any_lines) (candidate_of source)

  abbrev pub is_dropped : (remaining_chars : ℕ) → (any_lines : Bool) → ContextSource → Bool
  is_dropped remaining_chars any_lines source =
      leb (chars (cut remaining_chars any_lines source)) (chars (prefix_of source))

  -- The text that a source adds.
  unfoldable pub output_of : (remaining_chars : ℕ) → (any_lines : Bool) → ContextSource → String
  output_of remaining_chars any_lines source =
      if is_dropped remaining_chars any_lines source
      then ""
      else cut remaining_chars any_lines source

  unfoldable pub outcome_of :
      (remaining_chars : ℕ) → (any_lines : Bool) → ContextSource → ContextSourceOutcome
  outcome_of remaining_chars any_lines source =
      if is_dropped remaining_chars any_lines source
      then dropped
      else (if ltb (chars (cut remaining_chars any_lines source)) (chars (candidate_of source))
            || ltb (chars (bounded_content source)) (chars (sanitize_context_text source.content))
          then truncated
          else preserved)

  abbrev pub reason_of : (remaining_chars : ℕ) → (any_lines : Bool) → ContextSource → String
  reason_of remaining_chars any_lines source = elim (outcome_of remaining_chars any_lines source) [
    | dropped ↦
        if eqb (chars (sanitize_context_text source.content)) 0
        then "empty after sanitization"
        else "context budget exhausted"
    | truncated ↦ "bounded critical item to the configured context limit"
    | _ ↦ "preserved by context precedence policy"
  ]

  unfoldable pub decision_of :
      (remaining_chars : ℕ) → (any_lines : Bool) → ContextSource → ContextSourceDecision
  unfolding output_of outcome_of
  decision_of remaining_chars any_lines source = record {
    source_id = source.source_id;
    source_type = source.source_type;
    outcome = outcome_of remaining_chars any_lines source;
    input_chars = chars source.content;
    output_chars = chars (output_of remaining_chars any_lines source);
    reason = reason_of remaining_chars any_lines source;
  }

  -- The loop, over the sources in their order: the lines it appends and the decisions.
  unfoldable pub assemble :
      (remaining_chars : ℕ)
      → (any_lines : Bool) → List ContextSource
      → List String × List ContextSourceDecision
  unfolding output_of decision_of
  assemble remaining_chars any_lines [] = ([], [])
  assemble remaining_chars any_lines (source ∷ rest) =
      let output = output_of remaining_chars any_lines source in
      let decision = decision_of remaining_chars any_lines source in
      let without = assemble remaining_chars any_lines rest in
      let behind = assemble (remaining_chars - (chars output + separator any_lines)) true rest in
      if eqb (chars output) 0
      then (without.0, decision ∷ without.1)
      else (output ∷ behind.0, decision ∷ behind.1)

  -- `sorted` keeps sources of one priority in their order, as the key with the index does.
  unfoldable pub assemble_critical_context :
      Scale → (token_budget : ℕ) → List ContextSource → CriticalContextAssembly
  unfolding assemble sort_by estimate_tokens
  assemble_critical_context scale token_budget sources =
      let remaining_chars = min 20000 (scale.whole_chars token_budget) in
      let (lines, decisions) =
        assemble remaining_chars false
          (sort_by (λ source. source_priority source.source_type) sources) in
      record {
        text = join_lines lines;
        report = record {
          token_budget = token_budget;
          estimated_tokens_before =
              total (map (λ source. estimate_tokens scale source.content) sources);
          estimated_tokens_after = estimate_tokens scale (join_lines lines);
          decisions = decisions;
        };
      }
