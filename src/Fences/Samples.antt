-- ===== src/Fences/Samples.antt =====
-- Two deletions of a document and a late event, and the theorems at them.
use reminder.Prelude.{
  ◌≡◌, refl, true, false, not, none, some, List, [], ◌∷◌, leb, find_row, arith, chars, with_colon,
}
use reminder.Fences.Source.{
  FenceSource, knowledge_base, document, Event, IdOrder, IsLinear, unseen,
  sources_with_knowledge_base,
}
use reminder.Fences.Table.{
  SourceDeletionFence, FenceKey, upsert, upsert_all, event_is_blocked_by_deletion,
  advance_deletion_fences,
}
use reminder.Fences.Blocking.{advance_keeps_blocked, advance_blocks}

-- Ids are counters written with one mark for each step.
abbrev marks : IdOrder
marks = record {
  at_most = λ a b. leb (chars a) (chars b);
  sql_above = λ a b. not (leb (chars a) (chars b));
}

marks-IsLinear : IsLinear marks
marks-IsLinear = record {
  transitive = λ a b c h g. ground (arith, h, g);
  reflexive = λ a. ground arith;
  agrees = λ a b. refl;
  total = λ a b h. ground (arith, h);
}

abbrev plain_key : FenceKey
plain_key owner_id none source = with_colon "none" source.source_id
plain_key owner_id (some base) source = with_colon base source.source_id

abbrev the_document : FenceSource
the_document = record { source_type = document; source_id = "d1" }

abbrev the_base : FenceSource
the_base = record { source_type = knowledge_base; source_id = "kb1" }

abbrev deletion : Event
deletion = record {
  event_id = "||";
  owner_id = 1;
  knowledge_base_id = some "kb1";
  occurred_at = 20;
}

abbrev older_deletion : Event
older_deletion = record deletion { event_id = "|"; occurred_at = 15 }

abbrev late_event : Event
late_event = record deletion { event_id = "|"; occurred_at = 20 }

abbrev fences : List SourceDeletionFence
fences = (advance_deletion_fences marks plain_key 21 deletion the_base (the_document ∷ []) []).1

fences_block : event_is_blocked_by_deletion marks plain_key late_event [] fences ≡ true
unfolding event_is_blocked_by_deletion advance_deletion_fences sources_with_knowledge_base unseen
    upsert upsert_all find_row
fences_block = refl

newer_passes :
    event_is_blocked_by_deletion marks plain_key (record late_event { occurred_at = 21 }) [] fences
    ≡ false
unfolding event_is_blocked_by_deletion advance_deletion_fences sources_with_knowledge_base unseen
    upsert upsert_all find_row
newer_passes = refl

advance_keeps_blocked_example :
    event_is_blocked_by_deletion marks plain_key late_event []
      (advance_deletion_fences marks plain_key 30 older_deletion the_document [] fences).1
    ≡ true
advance_keeps_blocked_example =
    advance_keeps_blocked marks marks-IsLinear plain_key 30 older_deletion the_document []
      late_event [] fences fences_block

advance_blocks_example :
    event_is_blocked_by_deletion marks plain_key late_event (the_document ∷ []) fences ≡ true
unfolding advance_deletion_fences unseen upsert upsert_all find_row sources_with_knowledge_base
advance_blocks_example =
    advance_blocks marks marks-IsLinear plain_key 21 deletion the_base (the_document ∷ [])
      late_event the_document (the_document ∷ []) [] refl refl refl refl refl refl
