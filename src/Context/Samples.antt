-- ===== src/Context/Samples.antt =====
-- A citation and a policy, and the theorems at them; a token stands for four characters.
use reminder.Prelude.{◌*◌, ◌/◌, ◌+◌, ◌≤◌, String, [], ◌∷◌, chars}
use reminder.Context.Source.{ContextSource, system_policy, citation}
use reminder.Context.Assemble.{Scale, assemble_critical_context}
use reminder.Context.Bounds.{text_bounded}

abbrev four_chars : Scale
four_chars = record { whole_chars = λ n. n * 4; tokens_in = λ n. (n + 3) / 4 }

abbrev as_it_is : String → String
as_it_is s = s

abbrev quote : ContextSource
quote = record { source_id = "c1"; source_type = citation; content = "The sky is blue." }

abbrev policy : ContextSource
policy = record { source_id = "p1"; source_type = system_policy; content = "Cite sources." }

text_bounded_example :
    chars (assemble_critical_context as_it_is four_chars 10 (quote ∷ policy ∷ [])).text ≤ 40
text_bounded_example = text_bounded as_it_is four_chars 10 (quote ∷ policy ∷ [])
