-- ===== src/Context/Bounds.antt =====
-- The length of an assembled context, and what each decision says of its source.
use Prim.Native.String.{◌++◌}
use text.Mathlib.TextLemmas.{nil-append, cons-append}
use reminder.Prelude.{
  ℕ, ◌+◌, ◌-◌, ◌≤◌, min, String, ◌≡◌, ◌≢◌, refl, ap, ◌∙◌, inl, inr, Bool, true, false, ◌||◌, List,
  [], ◌∷◌, map, ltb, leb, eqb, if◌then◌else◌, arith, Bool-cases, chars, chars-take_chars,
  take_chars_all, sort_by,
}
use reminder.Context.Source.{
  ContextSource, ContextSourceDecision, preserved, truncated, dropped, source_priority,
  source_char_limit,
}
use reminder.Context.Assemble.{
  Scale, join_lines, prefix_of, bounded_content, candidate_of, separator, cut, is_dropped,
  output_of, outcome_of, decision_of, assemble, assemble_critical_context,
}

chars-append : (a b : String) → chars (a ++ b) ≡ chars a + chars b
chars-append String.[] b = rw (nil-append b) (omega arith)
chars-append (String.◌∷◌ c a) b = rw (cons-append c a b) (omega (arith, chars-append a b))

-- What lines cost, each with the separator before it.
abbrev spent : (any_lines : Bool) → List String → ℕ
spent any_lines [] = 0
spent any_lines (line ∷ lines) = chars line + (if any_lines then 1 else 0) + spent true lines

chars-join_lines : (lines : List String) → chars (join_lines lines) ≡ spent false lines
chars-join_lines [] = refl
chars-join_lines (line ∷ []) = omega arith
chars-join_lines (line ∷ next ∷ rest) = rw (chars-append line ("\n" ++ join_lines (next ∷ rest))) (
    rw (chars-append "\n" (join_lines (next ∷ rest)))
      (rw (chars-join_lines (next ∷ rest)) (omega arith)))

chars-if :
    (b : Bool) (s : String) (n : ℕ) → (b ≡ false → chars s ≤ n) → chars (if b then "" else s) ≤ n
chars-if true s n h = omega arith
chars-if false s n h = h refl

ltb_refutes : (a b : ℕ) → ltb a b ≡ false → b ≤ a
ltb_refutes a b h = ground arith

leb_contradicts : (a b : ℕ) → a ≤ b → leb a b ≢ false
leb_contradicts a b le h = ground arith

preserved_tests :
    (b c d : Bool)
    → (if b then dropped else (if c || d then truncated else preserved)) ≡ preserved
    → (b ≡ false) × (c ≡ false) × (d ≡ false)
preserved_tests b c d h = (ground arith, ground arith, ground arith)

-- One round of the loop: a source without a text leaves the rest of it, one with a text costs it.
step_bound :
    {D : Type 0} (b any_lines : Bool) (o : String) (d : D) (p q : List String × List D) (n : ℕ)
    → spent any_lines p.0 ≤ n
    → (b ≡ false → spent any_lines (o ∷ q.0) ≤ n)
    → spent any_lines
        (if◌then◌else◌ {A = List String × List D} b (p.0, d ∷ p.1) (o ∷ q.0, d ∷ q.1)).0
      ≤ n
step_bound true any_lines o d p q n h g = h
step_bound false any_lines o d p q n h g = g refl

module _ (sanitize : String → String) where
  chars-output :
      (remaining : ℕ) (any_lines : Bool) (source : ContextSource)
      → chars (output_of sanitize remaining any_lines source)
        ≤ remaining - separator sanitize any_lines
  unfolding output_of
  chars-output remaining any_lines source =
      chars-if (is_dropped sanitize remaining any_lines source)
        (cut sanitize remaining any_lines source) (remaining - separator sanitize any_lines)
        (λ e. omega (
          arith,
          chars-take_chars (remaining - separator sanitize any_lines)
              (candidate_of sanitize source),
        ))

  spent-assemble :
      (remaining : ℕ) (any_lines : Bool) (sources : List ContextSource)
      → spent any_lines (assemble sanitize remaining any_lines sources).0 ≤ remaining
  unfolding assemble
  spent-assemble remaining any_lines [] = omega arith
  spent-assemble remaining any_lines (source ∷ rest) =
      let output = output_of sanitize remaining any_lines source in
      let left = remaining - (chars output + separator sanitize any_lines) in
      step_bound (eqb (chars output) 0) any_lines output
        (decision_of sanitize remaining any_lines source)
        (assemble sanitize remaining any_lines rest) (assemble sanitize left true rest) remaining
        (spent-assemble remaining any_lines rest)
        (λ e.
          let filled : chars output ≢ 0 = λ z. ground (arith, e, z) in
          omega
            (arith, filled, chars-output remaining any_lines source, spent-assemble left true rest))

  decisions-assemble :
      (remaining : ℕ) (any_lines : Bool) (sources : List ContextSource)
      → map
          (λ (d : ContextSourceDecision). d.source_id)
          (assemble sanitize remaining any_lines sources).1
        ≡ map (λ (source : ContextSource). source.source_id) sources
  unfolding assemble decision_of
  decisions-assemble remaining any_lines [] = refl
  decisions-assemble remaining any_lines (source ∷ rest) =
      let output = output_of sanitize remaining any_lines source in
      let left = remaining - (chars output + separator sanitize any_lines) in
      go (eqb (chars output) 0) _ _ _ _ (decisions-assemble remaining any_lines rest)
        (decisions-assemble left true rest)
    where
      go :
          (b : Bool) (lines more : List String) (p q : List ContextSourceDecision)
          → map (λ (d : ContextSourceDecision). d.source_id) p
            ≡ map (λ (source : ContextSource). source.source_id) rest
          → map (λ (d : ContextSourceDecision). d.source_id) q
            ≡ map (λ (source : ContextSource). source.source_id) rest
          → map
              (λ (d : ContextSourceDecision). d.source_id)
              (if◌then◌else◌ {A = List String × List ContextSourceDecision} b
                (lines, decision_of sanitize remaining any_lines source ∷ p)
                (more, decision_of sanitize remaining any_lines source ∷ q)).1
            ≡ map (λ (source : ContextSource). source.source_id) (source ∷ rest)
      go true lines more p q h g = ap (λ t. source.source_id ∷ t) h
      go false lines more p q h g = ap (λ t. source.source_id ∷ t) g

  -- The text of a context has at most 20,000 characters, and at most as many as its token budget
  -- stands for, whatever the sources hold and however they are cleaned.
  pub text_bounded :
      (scale : Scale) (token_budget : ℕ) (sources : List ContextSource)
      → chars (assemble_critical_context sanitize scale token_budget sources).text
        ≤ min 20000 (scale.whole_chars token_budget)
  unfolding assemble_critical_context
  text_bounded scale token_budget sources =
      let remaining = min 20000 (scale.whole_chars token_budget) in
      let ordered =
        sort_by (λ (source : ContextSource). source_priority source.source_type) sources in
      rw (chars-join_lines (assemble sanitize remaining false ordered).0)
        (spent-assemble remaining false ordered)

  -- The report has one decision for each source, in the order of precedence, sources of the same
  -- type in their own order.
  pub decisions_follow :
      (scale : Scale) (token_budget : ℕ) (sources : List ContextSource)
      → map
          (λ (d : ContextSourceDecision). d.source_id)
          (assemble_critical_context sanitize scale token_budget sources).report.decisions
        ≡ map
            (λ (source : ContextSource). source.source_id)
            (sort_by (λ (source : ContextSource). source_priority source.source_type) sources)
  unfolding assemble_critical_context
  decisions_follow scale token_budget sources =
      decisions-assemble (min 20000 (scale.whole_chars token_budget)) false
        (sort_by (λ (source : ContextSource). source_priority source.source_type) sources)

  chars-cut-filled :
      (remaining : ℕ) (any_lines : Bool) (source : ContextSource)
      → is_dropped sanitize remaining any_lines source ≡ false
      → candidate_of sanitize source ≡ prefix_of sanitize source ++ bounded_content sanitize source
  chars-cut-filled remaining any_lines source kept =
      elim (Bool-cases (eqb (chars (bounded_content sanitize source)) 0)) [
        | inl empty ↦
            let nothing : candidate_of sanitize source ≡ "" = cc empty in
            let short : chars (cut sanitize remaining any_lines source)
                ≤ chars (prefix_of sanitize source) =
              omega (
                arith,
                ap chars nothing,
                chars-take_chars (remaining - separator sanitize any_lines)
                    (candidate_of sanitize source),
              ) in
            absurd (
              leb_contradicts (chars (cut sanitize remaining any_lines source))
                (chars (prefix_of sanitize source)) short kept)
        | inr filled ↦ cc filled
      ]

  -- A source that is reported as preserved is in the context with its label and with the whole of
  -- its cleaned text.
  pub preserved_whole :
      (remaining : ℕ) (any_lines : Bool) (source : ContextSource)
      → outcome_of sanitize remaining any_lines source ≡ preserved
      → output_of sanitize remaining any_lines source
        ≡ prefix_of sanitize source ++ sanitize source.content
  unfolding output_of outcome_of
  preserved_whole remaining any_lines source h =
      let (kept, uncut, whole) =
        preserved_tests (is_dropped sanitize remaining any_lines source)
          (ltb (chars (cut sanitize remaining any_lines source))
            (chars (candidate_of sanitize source)))
          (ltb (chars (bounded_content sanitize source)) (chars (sanitize source.content))) h in
      let room = remaining - separator sanitize any_lines in
      let room_left : chars (candidate_of sanitize source) ≤ room = omega (
        arith,
        ltb_refutes (chars (cut sanitize remaining any_lines source))
            (chars (candidate_of sanitize source)) uncut,
        chars-take_chars room (candidate_of sanitize source),
      ) in
      let limit = source_char_limit source.source_type - chars (prefix_of sanitize source) in
      let content_fits : chars (sanitize source.content) ≤ limit = omega (
        arith,
        ltb_refutes (chars (bounded_content sanitize source)) (chars (sanitize source.content))
            whole,
        chars-take_chars limit (sanitize source.content),
      ) in
      let shown : output_of sanitize remaining any_lines source
          ≡ cut sanitize remaining any_lines source =
        cc kept in
      shown
      ∙ take_chars_all room (candidate_of sanitize source) room_left
      ∙ chars-cut-filled remaining any_lines source kept
      ∙ ap (λ t. prefix_of sanitize source ++ t)
          (take_chars_all limit (sanitize source.content) content_fits)
