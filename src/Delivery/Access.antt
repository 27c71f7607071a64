-- ===== src/Delivery/Access.antt =====
-- Reading a delivery back behind each statement of app/mneme/crud/channel.py.
use mathlib.Core.Option
use reminder.Prelude.{
  ◌∷◌, [], map, find_row, ℕ, String, ◌≡◌, refl, sym, subst, ◌∙◌, ◌⊎◌, inl, inr, true, false, ◌&&◌,
  Option, none, some, List, ◌==◌, if◌then◌else◌, eq_iff, eq_refl, arith, Bool-cases, Option-cases,
  find_row-write_row, key-find_row,
}
use reminder.Delivery.Rows.{
  recover_row, Status, ChannelDelivery, get_delivery, set_delivery, is_waiting, is_due, claimed,
  claim_channel_delivery, completed, complete_channel_delivery, refused, fail_channel_delivery,
}

module _ {Part Address : Type 0} where
  pub get-set :
      (i j : String) (f : ChannelDelivery Part Address → ChannelDelivery Part Address)
      (rows : List (ChannelDelivery Part Address))
      → ((row : ChannelDelivery Part Address) → (f row).id ≡ row.id)
      → get_delivery j (set_delivery i f rows)
        ≡ (if i == j then Option.map f (get_delivery j rows) else get_delivery j rows)
  unfolding get_delivery set_delivery
  get-set i j f rows same =
      find_row-write_row (λ (row : ChannelDelivery Part Address). row.id) i j f rows
        (λ row h. same row ∙ h)

  pub id-get :
      (i : String) (rows : List (ChannelDelivery Part Address)) {row : ChannelDelivery Part Address}
      → get_delivery i rows ≡ some row
      → row.id ≡ i
  unfolding get_delivery
  id-get i rows e = key-find_row (λ row. row.id) i rows e

  pub get_complete :
      (i j : String) (n : ℕ) (ids : List String) (now : ℕ)
      (rows : List (ChannelDelivery Part Address))
      → get_delivery j (complete_channel_delivery i n ids now rows) ≡ (
          if i == j
          then Option.map (completed n ids now) (get_delivery j rows)
          else get_delivery j rows)
  unfolding complete_channel_delivery
  get_complete i j n ids now rows = get-set i j (completed n ids now) rows (λ row. refl)

  pub get-fail :
      (i j : String) (n : ℕ) (ids : List String) (status : Status) (next : Option ℕ)
      (error : String) (rows : List (ChannelDelivery Part Address))
      → get_delivery j (fail_channel_delivery i n ids status next error rows) ≡ (
          if i == j
          then Option.map (refused n ids status next error) (get_delivery j rows)
          else get_delivery j rows)
  unfolding fail_channel_delivery
  get-fail i j n ids status next error rows =
      get-set i j (refused n ids status next error) rows (λ row. refl)

  pub claim_ready :
      (now : ℕ) (i : String) (rows : List (ChannelDelivery Part Address))
      (d : ChannelDelivery Part Address)
      → get_delivery i rows ≡ some d
      → (is_waiting d.status && is_due now d.next_attempt_at) ≡ true
      → claim_channel_delivery now i rows
        ≡ (some (claimed now d), set_delivery i (claimed now) rows)
  unfolding claim_channel_delivery
  claim_ready now i rows d e ready = ground (arith, e, ready)

  pub claim_waits :
      (now : ℕ) (i : String) (rows : List (ChannelDelivery Part Address))
      (d : ChannelDelivery Part Address)
      → get_delivery i rows ≡ some d
      → (is_waiting d.status && is_due now d.next_attempt_at) ≡ false
      → claim_channel_delivery now i rows ≡ (none, rows)
  unfolding claim_channel_delivery
  claim_waits now i rows d e waits = ground (arith, e, waits)

  pub claim_cases :
      (now : ℕ) (i : String) (rows : List (ChannelDelivery Part Address))
      → (claim_channel_delivery now i rows ≡ (none, rows))
        ⊎ ((d : ChannelDelivery Part Address) × (get_delivery i rows ≡ some d)
            × (claim_channel_delivery now i rows
                ≡ (some (claimed now d), set_delivery i (claimed now) rows)))
  unfolding claim_channel_delivery
  claim_cases now i rows = elim (Option-cases (get_delivery i rows)) [
    | inl e ↦ inl (rw (claim_channel_delivery, e) refl)
    | inr (d, e) ↦ elim (Bool-cases (is_waiting d.status && is_due now d.next_attempt_at)) [
      | inl ready ↦ inr (d, e, claim_ready now i rows d e ready)
      | inr waits ↦ inl (claim_waits now i rows d e waits)
    ]
  ]

  pub claimed-there :
      (now : ℕ) (i : String) (rows : List (ChannelDelivery Part Address))
      {d : ChannelDelivery Part Address}
      → get_delivery i rows ≡ some d
      → get_delivery (claimed now d).id (set_delivery i (claimed now) rows) ≡ some (claimed now d)
  unfolding claimed
  claimed-there now i rows {d} found =
      let same : (claimed now d).id ≡ i = id-get i rows found in
      subst (λ k. get_delivery k (set_delivery i (claimed now) rows) ≡ some (claimed now d))
        (sym same) (cc (get-set i i (claimed now) rows (λ row. refl), eq_refl i, found))

  -- A row behind a claim is a row from before it, or a claimed one.
  pub claimed-row {ℓ} :
      (now : ℕ) (i : String) (rows : List (ChannelDelivery Part Address))
      {d : ChannelDelivery Part Address}
      → get_delivery i rows ≡ some d
      → (j : String) {row : ChannelDelivery Part Address}
      → get_delivery j (set_delivery i (claimed now) rows) ≡ some row
      → (P : ChannelDelivery Part Address → Type ℓ)
      → ((row : ChannelDelivery Part Address) → P row → P (claimed now row))
      → ((row : ChannelDelivery Part Address) → get_delivery j rows ≡ some row → P row)
      → P row
  unfolding claimed
  claimed-row now i rows {d} found j {row} f P step h =
      let shape = get-set i j (claimed now) rows (λ row. refl) in
      elim (Bool-cases (i == j)) [
        | inl same ↦
            let here : get_delivery j rows ≡ some d =
              subst (λ k. get_delivery k rows ≡ some d) ((eq_iff i j).0 same) found in
            subst P {x = claimed now d} {y = row} (cc (shape, same, here, f)) (step d (h d here))
        | inr other ↦ h row (cc (shape, other, f))
      ]

  pub get-recover :
      (stale_before now : ℕ) (j : String) (rows : List (ChannelDelivery Part Address))
      → get_delivery j (map (recover_row stale_before now) rows)
        ≡ Option.map (recover_row stale_before now) (get_delivery j rows)
  unfolding get_delivery recover_row find_row
  get-recover stale_before now j [] = refl
  get-recover stale_before now j (row ∷ rows) = ground (arith, get-recover stale_before now j rows)
