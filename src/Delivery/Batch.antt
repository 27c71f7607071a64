-- ===== src/Delivery/Batch.antt =====
-- A whole dispatch: the recovery of stale deliveries, and then one delivery after the other.
use reminder.Prelude.{
  ℕ, zero, suc, ◌-◌, String, subst, inl, inr, List, [], ◌∷◌, map, Bool-cases, Option-cases,
}
use reminder.Delivery.Rows.{
  ChannelDelivery, get_delivery, is_stale, recover_row, recover_stale_channel_deliveries,
  list_dispatchable_channel_deliveries,
}
use reminder.Delivery.Worker.{
  Settings, System, process_channel_delivery, dispatch_each, dispatch_channel_deliveries,
}
use reminder.Delivery.Access.{get-recover}
use reminder.Delivery.Resume.{Channel, IsLawful, IsTracked}
use reminder.Delivery.Tracked.{AllTracked, process-AllTracked}

recover_row-IsTracked :
    {Part Address : Type 0} (stale_before now : ℕ) (d : ChannelDelivery Part Address)
    (acknowledged : List Part)
    → IsTracked d acknowledged
    → IsTracked (recover_row stale_before now d) acknowledged
unfolding recover_row
recover_row-IsTracked stale_before now d acknowledged t =
    elim (Bool-cases (is_stale stale_before d)) [
      | inl stale ↦ rw stale (record { sent = t.sent; within = t.within; whole = λ e. cc })
      | inr fresh ↦ rw fresh t
    ]

module _ {Part Address W : Type 0} (settings : Settings) (c : Channel Part Address W)
    (lawful : IsLawful c) where
  recover-AllTracked :
      (stale_before now : ℕ) (s : System Part Address W)
      → AllTracked settings c lawful s
      → AllTracked settings c lawful
          (record s { deliveries = map (recover_row stale_before now) s.deliveries })
  recover-AllTracked stale_before now s h j row found =
      elim (Option-cases (get_delivery j s.deliveries)) [
        | inl e ↦ absurd (cc (get-recover stale_before now j s.deliveries, e, found))
        | inr (d, e) ↦
            subst (λ r. IsTracked r (c.acknowledged s.world j)) {x = recover_row stale_before now d}
              {y = row} (cc (get-recover stale_before now j s.deliveries, e, found))
              (recover_row-IsTracked stale_before now d (c.acknowledged s.world j) (h j d e))
      ]

  dispatch_each-AllTracked :
      (now : ℕ) (ids : List String) (s : System Part Address W)
      → AllTracked settings c lawful s
      → AllTracked settings c lawful (dispatch_each settings c.send now ids s).1
  unfolding dispatch_each
  dispatch_each-AllTracked now [] s h = h
  dispatch_each-AllTracked now (i ∷ ids) s h =
      dispatch_each-AllTracked now ids (process_channel_delivery settings c.send now i s).1
        (process-AllTracked settings c lawful now i s h)

  pub dispatch-AllTracked :
      (now limit : ℕ) (s : System Part Address W)
      → AllTracked settings c lawful s
      → AllTracked settings c lawful (dispatch_channel_deliveries settings c.send now limit s).1
  unfolding dispatch_channel_deliveries recover_stale_channel_deliveries
  dispatch-AllTracked now limit s h =
      let bound : ℕ = elim limit [ zero ↦ settings.dispatch_batch_size | suc n ↦ suc n ] in
      let rows = map (recover_row (now - settings.stale_seconds) now) s.deliveries in
      dispatch_each-AllTracked now
        (map (λ (delivery : ChannelDelivery Part Address). delivery.id)
          (list_dispatchable_channel_deliveries now bound rows))
        (record s { deliveries = rows }) (recover-AllTracked (now - settings.stale_seconds) now s h)
