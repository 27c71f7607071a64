-- ===== src/Delivery/Histories.antt =====
-- Deliveries over any history: rows are created, delivered, recovered, asked for again, and left by
-- workers that stop for good. One worker at a time writes a row that it has claimed.
use reminder.Prelude.{
  ℕ, String, ◌≡◌, refl, subst, ◌⊎◌, inl, inr, some, List, [], ◌∷◌, ◌++◌, ◌==◌, arith, Bool-cases,
  Option-cases, find_row,
}
use reminder.Delivery.Rows.{
  pending, ChannelDelivery, get_delivery, set_delivery, create_or_get_channel_delivery,
  claim_channel_delivery, reset, retry_channel_delivery,
}
use reminder.Delivery.Worker.{
  Settings, System, process_channel_delivery, dispatch_channel_deliveries,
}
use reminder.Delivery.Feishu.{Client, Feishu}
use reminder.Delivery.Access.{get-set}
use reminder.Delivery.Parts.{nil-Sublist}
use reminder.Delivery.Resume.{Channel, IsLawful, IsTracked}
use reminder.Delivery.Tracked.{AllTracked, process-AllTracked, after_stop, stop-AllTracked}
use reminder.Delivery.Batch.{dispatch-AllTracked}
use reminder.Delivery.Acknowledged.{feishu_channel, feishu-IsLawful}

pub data Op (Part Address : Type 0) : Type 0 where
  create : ChannelDelivery Part Address → Op Part Address
  process : (now : ℕ) → (delivery_id : String) → Op Part Address
  dispatch : (now limit : ℕ) → Op Part Address
  stop : (now posted : ℕ) → (delivery_id : String) → Op Part Address
  retry : (delivery_id : String) → (mneme_user_id : ℕ) → Op Part Address

-- The columns that the creation leaves to their defaults.
abbrev pub fresh :
    {Part Address : Type 0} → ChannelDelivery Part Address → ChannelDelivery Part Address
fresh values = record values { parts_sent = 0; status = pending }

module _ {Part Address W : Type 0} (settings : Settings) (c : Channel Part Address W)
    (lawful : IsLawful c) where
  unfoldable pub apply : Op Part Address → System Part Address W → System Part Address W
  apply (create values) s = record s {
    deliveries = (create_or_get_channel_delivery (fresh values) s.deliveries).1;
  }
  apply (process now i) s = (process_channel_delivery settings c.send now i s).1
  apply (dispatch now limit) s = (dispatch_channel_deliveries settings c.send now limit s).1
  apply (stop now posted i) s =
      after_stop settings c lawful posted (claim_channel_delivery now i s.deliveries) s.world
  apply (retry i user) s = record s { deliveries = (retry_channel_delivery i user s.deliveries).1 }

  unfoldable pub apply_all : List (Op Part Address) → System Part Address W → System Part Address W
  unfolding apply
  apply_all [] s = s
  apply_all (op ∷ ops) s = apply_all ops (apply op s)

  get-append :
      (j : String) (rows : List (ChannelDelivery Part Address))
      (new found : ChannelDelivery Part Address)
      → get_delivery j (rows ++ (new ∷ [])) ≡ some found
      → (get_delivery j rows ≡ some found) ⊎ (new ≡ found)
  unfolding get_delivery find_row
  get-append j [] new found e = ground arith
  get-append j (x ∷ rows) new found e = ground (arith, get-append j rows new found)

  fresh-IsTracked :
      (values : ChannelDelivery Part Address) (acknowledged : List Part)
      → IsTracked (fresh values) acknowledged
  fresh-IsTracked values acknowledged = record {
    sent = nil-Sublist acknowledged;
    within = omega arith;
    whole = λ h. cc;
  }

  create_cases :
      (v : ChannelDelivery Part Address) (rows : List (ChannelDelivery Part Address))
      → ((create_or_get_channel_delivery v rows).1 ≡ rows ++ (v ∷ []))
        ⊎ ((create_or_get_channel_delivery v rows).1 ≡ rows)
  unfolding create_or_get_channel_delivery
  create_cases v rows =
      elim (Option-cases (
        find_row (λ (d : ChannelDelivery Part Address). d.idempotency_key) v.idempotency_key
          rows)) [
            | inl e ↦ inl (rw (e, create_or_get_channel_delivery) refl)
            | inr (d, e) ↦ inr (rw (e, create_or_get_channel_delivery) refl)
          ]

  retry_cases :
      (i : String) (user : ℕ) (rows : List (ChannelDelivery Part Address))
      → ((retry_channel_delivery i user rows).1 ≡ set_delivery i reset rows)
        ⊎ ((retry_channel_delivery i user rows).1 ≡ rows)
  unfolding retry_channel_delivery
  retry_cases i user rows = ground arith

  reset-IsTracked :
      (row : ChannelDelivery Part Address) (acknowledged : List Part)
      → IsTracked row acknowledged
      → IsTracked (reset row) acknowledged
  reset-IsTracked row acknowledged t = record { sent = t.sent; within = t.within; whole = λ h. cc }

  retry-AllTracked :
      (i : String) (user : ℕ) (s : System Part Address W)
      → AllTracked settings c lawful s
      → AllTracked settings c lawful
          (record s { deliveries = (retry_channel_delivery i user s.deliveries).1 })
  retry-AllTracked i user s h = elim (retry_cases i user s.deliveries) [
    | inr e ↦ rw e h
    | inl e ↦ rw e (λ j row f. elim (Bool-cases (i == j)) [
      | inr other ↦ h j row (cc (get-set i j reset s.deliveries (λ d. refl), other, f))
      | inl same ↦ elim (Option-cases (get_delivery j s.deliveries)) [
        | inl gone ↦ absurd (cc (get-set i j reset s.deliveries (λ d. refl), same, gone, f))
        | inr (d, found) ↦
            subst (λ r. IsTracked r (c.acknowledged s.world j)) {x = reset d} {y = row}
              (cc (get-set i j reset s.deliveries (λ d. refl), same, found, f))
              (reset-IsTracked d (c.acknowledged s.world j) (h j d found))
      ]
    ])
  ]

  apply-AllTracked :
      (op : Op Part Address) (s : System Part Address W)
      → AllTracked settings c lawful s
      → AllTracked settings c lawful (apply op s)
  unfolding apply
  apply-AllTracked (create values) s h = elim (create_cases (fresh values) s.deliveries) [
    | inr e ↦ rw e h
    | inl e ↦ rw e (λ j row f. elim (get-append j s.deliveries (fresh values) row f) [
      | inl old ↦ h j row old
      | inr new ↦
          subst (λ r. IsTracked r (c.acknowledged s.world j)) new
            (fresh-IsTracked values (c.acknowledged s.world j))
    ])
  ]
  apply-AllTracked (process now i) s h = process-AllTracked settings c lawful now i s h
  apply-AllTracked (dispatch now limit) s h = dispatch-AllTracked settings c lawful now limit s h
  apply-AllTracked (stop now posted i) s h = stop-AllTracked settings c lawful now posted i s h
  apply-AllTracked (retry i user) s h = retry-AllTracked i user s h

  apply_all-AllTracked :
      (ops : List (Op Part Address)) (s : System Part Address W)
      → AllTracked settings c lawful s
      → AllTracked settings c lawful (apply_all ops s)
  unfolding apply_all
  apply_all-AllTracked [] s h = h
  apply_all-AllTracked (op ∷ ops) s h =
      apply_all-AllTracked ops (apply op s) (apply-AllTracked op s h)

module _ {Part Address N : Type 0} (settings : Settings) (client : Client Part Address N) where
  -- The server that delivers by Feishu, behind a history from the empty table.
  abbrev pub history : List (Op Part Address) → Feishu Part N → System Part Address (Feishu Part N)
  history ops feishu =
      apply_all settings (feishu_channel client) (feishu-IsLawful client) ops
        (record { deliveries = []; world = feishu })

  none_found : (j : String) {row : ChannelDelivery Part Address} → get_delivery j [] ≡ some row → ⊥
  unfolding get_delivery find_row
  none_found j h = cc

  -- Whatever the HTTP client answers or raises, and whatever creations, deliveries, dispatches with
  -- their recoveries, retries by users and workers that stop for good led to it, one worker at a time
  -- on a row: the first `parts_sent` parts of a delivery have been acknowledged by Feishu, in their
  -- order, and if the delivery has succeeded, all its parts have.
  pub history-IsTracked :
      (ops : List (Op Part Address)) (feishu : Feishu Part N) (j : String)
      (row : ChannelDelivery Part Address)
      → get_delivery j (history ops feishu).deliveries ≡ some row
      → IsTracked row ((history ops feishu).world.acknowledged j)
  history-IsTracked ops feishu j row e =
      apply_all-AllTracked settings (feishu_channel client) (feishu-IsLawful client) ops
        (record { deliveries = []; world = feishu }) (λ k r f. absurd (none_found k f)) j row e
