-- ===== src/Fences/Blocking.antt =====
-- Events behind an advance of the fences.
use reminder.Prelude.{
  ℕ, String, ◌≡◌, refl, sym, subst, ◌⊎◌, inl, inr, true, false, ◌&&◌, List, [], ◌∷◌, map, ◌==◌,
  some_of, keep, eq_iff, eq_refl, arith, Bool-cases,
}
use reminder.Fences.Source.{
  FenceSource, FenceSourceType, knowledge_base, document, conversation, explicit_request, same_type,
  Event, IdOrder, IsLinear, order_le, same_source, same_source_eq, has_source, unseen,
  sources_with_knowledge_base,
}
use reminder.Fences.Table.{
  SourceDeletionFence, FenceKey, upsert, upsert_all, event_key, fence_value,
  event_is_blocked_by_deletion, advance_deletion_fences,
}
use reminder.Fences.Upsert.{
  is_fenced, upsert_all_keeps, upsert_all_fences, is_fenced-below, is_found_above, upsert_found,
  upsert_all_keeps_found, has_source-fromkeys,
}

same_source_refl : (a : FenceSource) → same_source a a ≡ true
same_source_refl a = ground (arith, eq_refl a.source_id, same_type_refl a.source_type)
  where
    same_type_refl : (t : FenceSourceType) → same_type t t ≡ true
    same_type_refl knowledge_base = refl
    same_type_refl document = refl
    same_type_refl conversation = refl
    same_type_refl explicit_request = refl

module _ (o : IdOrder) (linear : IsLinear o) (key_of : FenceKey) where
  key_in :
      (event : Event) (source : FenceSource) (sources : List FenceSource)
      → has_source source sources ≡ true
      → some_of
          (λ (key : String). key == event_key o key_of event source)
          (map (event_key o key_of event) sources)
        ≡ true
  key_in event source [] h = absurd (ground arith)
  key_in event source (first ∷ sources) h = elim (Bool-cases (same_source source first)) [
    | inl same ↦
        subst
          (λ s.
            some_of (λ (key : String). key == event_key o key_of event s)
              (map (event_key o key_of event) (first ∷ sources))
            ≡ true)
          (sym (same_source_eq source first same))
          (ground (arith, eq_refl (event_key o key_of event first)))
    | inr other ↦ ground (arith, h, other, key_in event source sources)
  ]

  key_from :
      (event : Event) (k : String) (sources : List FenceSource)
      → some_of (λ (key : String). key == k) (map (event_key o key_of event) sources) ≡ true
      → (source : FenceSource) × (has_source source sources ≡ true)
        × (event_key o key_of event source ≡ k)
  key_from event k [] h = absurd (ground arith)
  key_from event k (first ∷ sources) h = elim (Bool-cases (event_key o key_of event first == k)) [
    | inl same ↦ (
      first,
      ground (arith, same_source_refl first),
      (eq_iff (event_key o key_of event first) k).0 same,
    )
    | inr other ↦
        let rest = key_from event k sources (cc (h, other)) in
        (rest.0, ground (arith, rest.1), rest.2)
  ]

  keys_block :
      (keys : List String) (k : String) (a : ℕ) (i : String) (rows : List SourceDeletionFence)
      → some_of (λ (key : String). key == k) keys ≡ true
      → is_fenced o linear k a i rows ≡ true
      → some_of
          (λ (fence : SourceDeletionFence). order_le o a i fence.deleted_at fence.delete_event_id)
          (keep
            (λ (fence : SourceDeletionFence).
              some_of (λ (key : String). key == fence.fence_key) keys)
            rows)
        ≡ true
  keys_block keys k a i [] named fenced = absurd (ground arith)
  keys_block keys k a i (r ∷ rows) named fenced = elim (Bool-cases (r.fence_key == k)) [
    | inl same ↦
        let named_r : some_of (λ (key : String). key == r.fence_key) keys ≡ true =
          subst (λ x. some_of (λ (key : String). key == x) keys ≡ true)
            (sym ((eq_iff r.fence_key k).0 same)) named in
        ground (arith, same, named_r, fenced, keys_block keys k a i rows named)
    | inr other ↦ ground (arith, other, fenced, keys_block keys k a i rows named)
  ]

  blocking_key :
      (keys : List String) (a : ℕ) (i : String) (rows : List SourceDeletionFence)
      → some_of
          (λ (fence : SourceDeletionFence). order_le o a i fence.deleted_at fence.delete_event_id)
          (keep
            (λ (fence : SourceDeletionFence).
              some_of (λ (key : String). key == fence.fence_key) keys)
            rows)
        ≡ true
      → (k : String) × (some_of (λ (key : String). key == k) keys ≡ true)
        × (is_fenced o linear k a i rows ≡ true)
  blocking_key keys a i [] h = absurd (ground arith)
  blocking_key keys a i (r ∷ rows) h =
      elim (Bool-cases (
        some_of (λ (key : String). key == r.fence_key) keys
        && order_le o a i r.deleted_at r.delete_event_id)) [
          | inl here ↦
              (r.fence_key, ground (arith, here), ground (arith, here, eq_refl r.fence_key))
          | inr there ↦
              let rest = blocking_key keys a i rows (ground (arith, h, there)) in
              (rest.0, rest.1, ground (arith, rest.2))
        ]

  -- One fence under a source of the event, at or above the event's order, blocks it.
  fenced_blocks :
      (event : Event) (source : FenceSource) (sources : List FenceSource)
      (rows : List SourceDeletionFence)
      → has_source source (sources_with_knowledge_base event sources) ≡ true
      → is_fenced o linear (event_key o key_of event source) event.occurred_at event.event_id rows
        ≡ true
      → event_is_blocked_by_deletion o key_of event sources rows ≡ true
  unfolding event_is_blocked_by_deletion
  fenced_blocks event source sources rows named fenced =
      keys_block (map (event_key o key_of event) (sources_with_knowledge_base event sources))
        (event_key o key_of event source) event.occurred_at event.event_id rows
        (key_in event source (sources_with_knowledge_base event sources) named) fenced

  -- A blocked event has such a fence.
  blocked_fenced :
      (event : Event) (sources : List FenceSource) (rows : List SourceDeletionFence)
      → event_is_blocked_by_deletion o key_of event sources rows ≡ true
      → (source : FenceSource) × (has_source source (sources_with_knowledge_base event sources)
          ≡ true)
        × (is_fenced o linear
              (event_key o key_of event source)
              event.occurred_at
              event.event_id
              rows
            ≡ true)
  unfolding event_is_blocked_by_deletion
  blocked_fenced event sources rows blocked =
      let scoped = sources_with_knowledge_base event sources in
      let (k, named, fenced) =
        blocking_key (map (event_key o key_of event) scoped) event.occurred_at event.event_id rows
          blocked in
      let (source, has, same) = key_from event k scoped named in
      (
        source,
        has,
        subst (λ x. is_fenced o linear x event.occurred_at event.event_id rows ≡ true) (sym same)
            fenced,
      )

  stale_refused :
      (now : ℕ) (event : Event) (primary : FenceSource) (additional : List FenceSource)
      (rows : List SourceDeletionFence)
      → is_found_above o linear
          (event_key o key_of event primary)
          event.occurred_at
          event.event_id
          rows
        ≡ true
      → advance_deletion_fences o key_of now event primary additional rows ≡ (false, rows)
  unfolding advance_deletion_fences
  stale_refused now event primary additional rows stale = cc stale

  advance_cases :
      (now : ℕ) (event : Event) (primary : FenceSource) (additional : List FenceSource)
      (rows : List SourceDeletionFence)
      → (is_found_above o linear
            (event_key o key_of event primary)
            event.occurred_at
            event.event_id
            rows
          ≡ true)
        ⊎ (advance_deletion_fences o key_of now event primary additional rows ≡ (
          true,
          upsert_all o now
              (map (fence_value o key_of now event) (unseen [] (primary ∷ additional)))
              rows,
        ))
  unfolding advance_deletion_fences
  advance_cases now event primary additional rows =
      elim (Bool-cases (
        is_found_above o linear (event_key o key_of event primary) event.occurred_at event.event_id
          rows)) [ inl stale ↦ inl stale | inr newest ↦ inr (cc newest) ]

  -- The first value an advance writes is the primary source's.
  advance_found :
      (now : ℕ) (event : Event) (primary : FenceSource) (additional : List FenceSource)
      (rows : List SourceDeletionFence)
      → is_found_above o linear
          (event_key o key_of event primary)
          event.occurred_at
          event.event_id
          (upsert_all o now
            (map (fence_value o key_of now event) (unseen [] (primary ∷ additional)))
            rows)
        ≡ true
  unfolding unseen upsert_all
  advance_found now event primary additional rows =
      upsert_all_keeps_found o linear now
        (map (fence_value o key_of now event) (unseen (primary ∷ []) additional))
        (event_key o key_of event primary) event.occurred_at event.event_id
        (upsert o now (fence_value o key_of now event primary) rows)
        (upsert_found o linear now (fence_value o key_of now event primary) rows)

  -- With a linear order on event ids that the database shares: an event that a deletion blocks stays
  -- blocked behind any further deletion.
  pub advance_keeps_blocked :
      (now : ℕ) (deletion : Event) (primary : FenceSource) (additional : List FenceSource)
      (event : Event) (sources : List FenceSource) (rows : List SourceDeletionFence)
      → event_is_blocked_by_deletion o key_of event sources rows ≡ true
      → event_is_blocked_by_deletion o key_of event sources
          (advance_deletion_fences o key_of now deletion primary additional rows).1
        ≡ true
  advance_keeps_blocked now deletion primary additional event sources rows blocked =
      let (source, named, fenced) = blocked_fenced event sources rows blocked in
      elim (advance_cases now deletion primary additional rows) [
        | inl stale ↦ rw (stale_refused now deletion primary additional rows stale) blocked
        | inr e ↦ rw e (
            fenced_blocks event source sources _ named (
              upsert_all_keeps o linear now _ (event_key o key_of event source) event.occurred_at
                event.event_id rows fenced))
      ]

  -- With a linear order on event ids that the database shares: once a deletion has won, every event of the same owner and knowledge base that is not after it,
  -- and that names a source the deletion fenced, is blocked.
  pub advance_blocks :
      (now : ℕ) (deletion : Event) (primary : FenceSource) (additional : List FenceSource)
      (event : Event) (source : FenceSource) (sources : List FenceSource)
      (rows : List SourceDeletionFence)
      → (advance_deletion_fences o key_of now deletion primary additional rows).0 ≡ true
      → event.owner_id ≡ deletion.owner_id
      → event.knowledge_base_id ≡ deletion.knowledge_base_id
      → order_le o event.occurred_at event.event_id deletion.occurred_at deletion.event_id ≡ true
      → has_source source (primary ∷ additional) ≡ true
      → has_source source (sources_with_knowledge_base event sources) ≡ true
      → event_is_blocked_by_deletion o key_of event sources
          (advance_deletion_fences o key_of now deletion primary additional rows).1
        ≡ true
  advance_blocks now deletion primary additional event source sources rows won owner base le fenced
        named =
      elim (advance_cases now deletion primary additional rows) [
        | inl stale ↦ absurd (cc (won, stale_refused now deletion primary additional rows stale))
        | inr e ↦ rw e (
            fenced_blocks event source sources _ named (
              is_fenced-below o linear (event_key o key_of event source) event.occurred_at
                deletion.occurred_at event.event_id deletion.event_id _ le
                (subst
                  (λ k.
                    is_fenced o linear k deletion.occurred_at deletion.event_id (
                      upsert_all o now
                        (map (fence_value o key_of now deletion) (unseen [] (primary ∷ additional)))
                        rows)
                    ≡ true)
                  (cc (owner, base))
                  (upsert_all_fences o linear key_of now deletion source
                    (unseen [] (primary ∷ additional)) rows
                    (has_source-fromkeys source (primary ∷ additional) fenced)))))
      ]

  -- With a linear order on event ids that the database shares: a deletion that is delivered again, at
  -- any time, does not win again and changes no fence.
  pub advance_again :
      (now later : ℕ) (deletion : Event) (primary : FenceSource) (additional : List FenceSource)
      (rows : List SourceDeletionFence)
      → advance_deletion_fences o key_of later deletion primary additional
          (advance_deletion_fences o key_of now deletion primary additional rows).1
        ≡ (false, (advance_deletion_fences o key_of now deletion primary additional rows).1)
  advance_again now later deletion primary additional rows =
      elim (advance_cases now deletion primary additional rows) [
        | inl stale ↦
            rw (stale_refused now deletion primary additional rows stale)
              (stale_refused later deletion primary additional rows stale)
        | inr e ↦ rw e (
            stale_refused later deletion primary additional _
              (advance_found now deletion primary additional rows))
      ]
