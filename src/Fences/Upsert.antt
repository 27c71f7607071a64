-- ===== src/Fences/Upsert.antt =====
-- What an advance does to the orders that the fences hold.
use reminder.Prelude.{
  ℕ, String, ◌≡◌, refl, sym, subst, inl, inr, true, false, Bool, ◌&&◌, none, some, List, [], ◌∷◌,
  map, ◌==◌, some_of, find_row, eq_refl, arith, Bool-cases,
}
use reminder.Fences.Source.{
  FenceSource, Event, IdOrder, IsLinear, order_le, order_le_trans, same_source, same_source_eq,
  has_source, unseen,
}
use reminder.Fences.Table.{
  SourceDeletionFence, FenceKey, is_later, upsert, upsert_all, event_key, fence_value,
}

module _ (o : IdOrder) (linear : IsLinear o) where
  -- A fence with the key `k` holds an order that is the given one or above it.
  abbrev pub is_fenced : String → (at : ℕ) → (event_id : String) → List SourceDeletionFence → Bool
  is_fenced k at event_id rows =
      some_of
        (λ fence.
          (fence.fence_key == k) && order_le o at event_id fence.deleted_at fence.delete_event_id)
        rows

  order_le-later :
      (v r : SourceDeletionFence)
      → is_later o v r ≡ true
      → order_le o r.deleted_at r.delete_event_id v.deleted_at v.delete_event_id ≡ true
  order_le-later v r h = ground (
    arith,
    h,
    linear.agrees v.delete_event_id r.delete_event_id,
    linear.total v.delete_event_id r.delete_event_id,
  )

  order_le-not_later :
      (v r : SourceDeletionFence)
      → is_later o v r ≡ false
      → order_le o v.deleted_at v.delete_event_id r.deleted_at r.delete_event_id ≡ true
  order_le-not_later v r h = ground (arith, h, linear.agrees v.delete_event_id r.delete_event_id)

  order_le_refl : (a : ℕ) (i : String) → order_le o a i a i ≡ true
  order_le_refl a i = ground (arith, linear.reflexive i)

  pub upsert_fences :
      (now : ℕ) (v : SourceDeletionFence) (rows : List SourceDeletionFence)
      → is_fenced v.fence_key v.deleted_at v.delete_event_id (upsert o now v rows) ≡ true
  unfolding upsert
  upsert_fences now v [] =
      ground (arith, eq_refl v.fence_key, order_le_refl v.deleted_at v.delete_event_id)
  upsert_fences now v (r ∷ rows) = ground (
    arith,
    order_le-not_later v r,
    order_le_refl v.deleted_at v.delete_event_id,
    upsert_fences now v rows,
  )

  pub upsert_keeps :
      (now : ℕ) (v : SourceDeletionFence) (k : String) (a : ℕ) (i : String)
      (rows : List SourceDeletionFence)
      → is_fenced k a i rows ≡ true
      → is_fenced k a i (upsert o now v rows) ≡ true
  unfolding upsert
  upsert_keeps now v k a i [] h = absurd (ground arith)
  upsert_keeps now v k a i (r ∷ rows) h = ground (
    arith,
    h,
    order_le-later v r,
    order_le_trans o linear a r.deleted_at v.deleted_at i r.delete_event_id v.delete_event_id,
    upsert_keeps now v k a i rows,
  )

  pub upsert_all_keeps :
      (now : ℕ) (values : List SourceDeletionFence) (k : String) (a : ℕ) (i : String)
      (rows : List SourceDeletionFence)
      → is_fenced k a i rows ≡ true
      → is_fenced k a i (upsert_all o now values rows) ≡ true
  unfolding upsert_all
  upsert_all_keeps now [] k a i rows h = h
  upsert_all_keeps now (v ∷ values) k a i rows h =
      upsert_all_keeps now values k a i (upsert o now v rows) (upsert_keeps now v k a i rows h)

  pub is_fenced-below :
      (k : String) (a b : ℕ) (i j : String) (rows : List SourceDeletionFence)
      → order_le o a i b j ≡ true
      → is_fenced k b j rows ≡ true
      → is_fenced k a i rows ≡ true
  is_fenced-below k a b i j [] le h = h
  is_fenced-below k a b i j (r ∷ rows) le h = ground (
    arith,
    h,
    le,
    order_le_trans o linear a b r.deleted_at i j r.delete_event_id,
    is_fenced-below k a b i j rows le,
  )

  pub upsert_all_fences :
      (key_of : FenceKey) (now : ℕ) (event : Event) (source : FenceSource)
      (sources : List FenceSource) (rows : List SourceDeletionFence)
      → has_source source sources ≡ true
      → is_fenced
          (event_key o key_of event source)
          event.occurred_at
          event.event_id
          (upsert_all o now (map (fence_value o key_of now event) sources) rows)
        ≡ true
  unfolding upsert_all
  upsert_all_fences key_of now event source [] rows h = absurd (ground arith)
  upsert_all_fences key_of now event source (first ∷ sources) rows h =
      elim (Bool-cases (same_source source first)) [
        | inl same ↦
            upsert_all_keeps now (map (fence_value o key_of now event) sources)
              (event_key o key_of event source) event.occurred_at event.event_id
              (upsert o now (fence_value o key_of now event first) rows)
              (subst
                (λ s.
                  is_fenced (event_key o key_of event s) event.occurred_at event.event_id
                    (upsert o now (fence_value o key_of now event first) rows)
                  ≡ true)
                (sym (same_source_eq source first same))
                (upsert_fences now (fence_value o key_of now event first) rows))
        | inr other ↦
            upsert_all_fences key_of now event source sources
              (upsert o now (fence_value o key_of now event first) rows) (cc (h, other))
      ]

-- The same, read from the row that the primary key finds.
module _ (o : IdOrder) (linear : IsLinear o) where
  abbrev pub is_found_above :
      String → (at : ℕ) → (event_id : String) → List SourceDeletionFence → Bool
  is_found_above k at event_id rows = elim (find_row (λ row. row.fence_key) k rows) [
    | none ↦ false
    | some current ↦ order_le o at event_id current.deleted_at current.delete_event_id
  ]

  pub upsert_found :
      (now : ℕ) (v : SourceDeletionFence) (rows : List SourceDeletionFence)
      → is_found_above v.fence_key v.deleted_at v.delete_event_id (upsert o now v rows) ≡ true
  unfolding upsert find_row
  upsert_found now v [] =
      ground (arith, eq_refl v.fence_key, order_le_refl o linear v.deleted_at v.delete_event_id)
  upsert_found now v (r ∷ rows) = ground (
    arith,
    order_le-not_later o linear v r,
    order_le_refl o linear v.deleted_at v.delete_event_id,
    upsert_found now v rows,
  )

  upsert_keeps_found :
      (now : ℕ) (v : SourceDeletionFence) (k : String) (a : ℕ) (i : String)
      (rows : List SourceDeletionFence)
      → is_found_above k a i rows ≡ true
      → is_found_above k a i (upsert o now v rows) ≡ true
  unfolding upsert find_row
  upsert_keeps_found now v k a i [] h = absurd (ground arith)
  upsert_keeps_found now v k a i (r ∷ rows) h = ground (
    arith,
    h,
    order_le-later o linear v r,
    order_le_trans o linear a r.deleted_at v.deleted_at i r.delete_event_id v.delete_event_id,
    upsert_keeps_found now v k a i rows,
  )

  pub upsert_all_keeps_found :
      (now : ℕ) (values : List SourceDeletionFence) (k : String) (a : ℕ) (i : String)
      (rows : List SourceDeletionFence)
      → is_found_above k a i rows ≡ true
      → is_found_above k a i (upsert_all o now values rows) ≡ true
  unfolding upsert_all
  upsert_all_keeps_found now [] k a i rows h = h
  upsert_all_keeps_found now (v ∷ values) k a i rows h =
      upsert_all_keeps_found now values k a i (upsert o now v rows)
        (upsert_keeps_found now v k a i rows h)

-- Removing repeated sources loses none.
has_source-unseen :
    (source : FenceSource) (seen sources : List FenceSource)
    → has_source source sources ≡ true
    → has_source source seen ≡ false
    → has_source source (unseen seen sources) ≡ true
unfolding unseen
has_source-unseen source seen [] h fresh = h
has_source-unseen source seen (first ∷ sources) h fresh =
    elim (Bool-cases (same_source source first)) [
      | inl same ↦
          let unseen_first : has_source first seen ≡ false =
            subst (λ s. has_source s seen ≡ false) (same_source_eq source first same) fresh in
          ground (arith, same, unseen_first)
      | inr other ↦ ground (
        arith,
        other,
        h,
        fresh,
        has_source-unseen source seen sources,
        has_source-unseen source (first ∷ seen) sources,
      )
    ]

pub has_source-fromkeys :
    (source : FenceSource) (sources : List FenceSource)
    → has_source source sources ≡ true
    → has_source source (unseen [] sources) ≡ true
has_source-fromkeys source sources h = has_source-unseen source [] sources h refl
