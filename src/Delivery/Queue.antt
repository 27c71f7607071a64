-- ===== src/Delivery/Queue.antt =====
-- Claims of channel deliveries, their leases, and what a dispatch takes.
use reminder.Prelude.{
  ℕ, ◌+◌, ◌≤◌, ◌<◌, String, ◌≡◌, ◌≢◌, refl, sym, subst, ap, inl, inr, true, false, ◌&&◌, none, some,
  List, map, eq_refl, arith, lt→ltb, Option-cases, length, length-take, keep, All, All-keep,
  All-sort_by, All-take, IsOrdered, sort_by, sort_by-IsOrdered, take-IsOrdered,
}
use reminder.Delivery.Rows.{
  running, succeeded, failed, ChannelDelivery, get_delivery, set_delivery, is_waiting, is_due,
  is_stale, claimed, claim_channel_delivery, recover_row, recover_stale_channel_deliveries,
  list_dispatchable_channel_deliveries, retry_channel_delivery, reset,
}
use reminder.Delivery.Access.{get-recover, get-set, claim_cases, claim_waits, claim_ready}

module _ {Part Address : Type 0} where
  -- A delivery that a worker has claimed is given to no other worker, at any later time, until its
  -- row is written again.
  pub claim_once :
      (now later : ℕ) (i : String) (rows rows' : List (ChannelDelivery Part Address))
      (d : ChannelDelivery Part Address)
      → claim_channel_delivery now i rows ≡ (some d, rows')
      → claim_channel_delivery later i rows' ≡ (none, rows')
  unfolding claimed
  claim_once now later i rows rows' d e = elim (claim_cases now i rows) [
    | inl none_claimed ↦ cc
    | inr (row, found, shape) ↦
        claim_waits later i rows' (claimed now row)
          (cc (get-set i i (claimed now) rows (λ r. refl), eq_refl i, found, shape, e)) refl
  ]

  -- What a dispatch takes up: at most as many rows as the limit, each of them waiting and due, in
  -- the order in which they were created.
  pub list_dispatchable_lem :
      (now limit : ℕ) (rows : List (ChannelDelivery Part Address))
      → (length (list_dispatchable_channel_deliveries now limit rows) ≤ limit)
        × All
            (λ (row : ChannelDelivery Part Address).
              (is_waiting row.status ≡ true) × (is_due now row.next_attempt_at ≡ true))
            (list_dispatchable_channel_deliveries now limit rows)
        × IsOrdered
            (λ (row : ChannelDelivery Part Address). row.created_at)
            (list_dispatchable_channel_deliveries now limit rows)
  unfolding list_dispatchable_channel_deliveries
  list_dispatchable_lem now limit rows =
      let rank = λ (row : ChannelDelivery Part Address). row.created_at in
      let waiting =
        keep
          (λ (row : ChannelDelivery Part Address).
            is_waiting row.status && is_due now row.next_attempt_at)
          rows in
      (
        omega (arith, length-take limit (sort_by rank waiting)),
        All-take _ limit _ (
            All-sort_by rank _ waiting
              (All-keep _ _ rows (λ row h. (ground (arith, h), ground (arith, h))))),
        take-IsOrdered rank limit _ (sort_by-IsOrdered rank waiting),
      )

  recover_stale :
      (stale_before now t : ℕ) (d : ChannelDelivery Part Address)
      → d.status ≡ running
      → d.locked_at ≡ some t
      → t < stale_before
      → recover_row stale_before now d ≡ record d {
        status = failed;
        locked_at = none;
        next_attempt_at = some now;
        last_error = some "channel delivery lease expired";
      }
  unfolding recover_row
  recover_stale stale_before now t d run lock old =
      ground (arith, run, lock, lt→ltb t stale_before old)

  -- A delivery whose worker stopped is taken up again: once its lock is older than the lease, the
  -- recovery makes it claimable at that time, with one attempt more and with the parts that were
  -- recorded as sent.
  pub recover_claims :
      (stale_before now t : ℕ) (i : String) (rows : List (ChannelDelivery Part Address))
      (d : ChannelDelivery Part Address)
      → get_delivery i rows ≡ some d
      → d.status ≡ running
      → d.locked_at ≡ some t
      → t < stale_before
      → (taken : ChannelDelivery Part Address) × (rows' : List (ChannelDelivery Part Address))
        × (claim_channel_delivery now i (recover_stale_channel_deliveries stale_before now rows).1
            ≡ (some taken, rows'))
        × (taken.attempt_count ≡ d.attempt_count + 1)
        × (taken.parts_sent ≡ d.parts_sent)
        × (taken.parts ≡ d.parts)
  unfolding recover_stale_channel_deliveries claimed
  recover_claims stale_before now t i rows d found run lock old =
      let freed : ChannelDelivery Part Address = record d {
        status = failed;
        locked_at = none;
        next_attempt_at = some now;
        last_error = some "channel delivery lease expired";
      } in
      (
        claimed now freed,
        set_delivery i (claimed now) (map (recover_row stale_before now) rows),
        claim_ready now i _ freed
            (cc (
              get-recover stale_before now i rows,
              found,
              recover_stale stale_before now t d run lock old,
            ))
            (ground arith),
        refl,
        refl,
        refl,
      )

  -- The recovery leaves every other row as it is.
  pub recover_keeps :
      (stale_before now : ℕ) (i : String) (rows : List (ChannelDelivery Part Address))
      → ((d : ChannelDelivery Part Address)
          → get_delivery i rows ≡ some d
          → is_stale stale_before d ≡ false)
      → get_delivery i (recover_stale_channel_deliveries stale_before now rows).1
        ≡ get_delivery i rows
  unfolding recover_stale_channel_deliveries recover_row
  recover_keeps stale_before now i rows fresh = elim (Option-cases (get_delivery i rows)) [
    | inl e ↦ cc (get-recover stale_before now i rows, e)
    | inr (d, e) ↦ cc (get-recover stale_before now i rows, e, fresh d e)
  ]

  retry_resets :
      (user : ℕ) (i : String) (rows : List (ChannelDelivery Part Address))
      (d : ChannelDelivery Part Address)
      → get_delivery i rows ≡ some d
      → d.mneme_user_id ≡ some user
      → d.status ≢ succeeded
      → retry_channel_delivery i user rows ≡ (some (reset d), set_delivery i reset rows)
  unfolding retry_channel_delivery
  retry_resets user i rows d found owner unsent = ground (arith, found, owner, unsent)

  -- A user's retry puts any delivery of that user that has not succeeded back in the queue, with
  -- all its attempts: a dispatch at any time can claim it.
  pub retry_claims :
      (now user : ℕ) (i : String) (rows : List (ChannelDelivery Part Address))
      (d : ChannelDelivery Part Address)
      → get_delivery i rows ≡ some d
      → d.mneme_user_id ≡ some user
      → d.status ≢ succeeded
      → (taken : ChannelDelivery Part Address) × (rows' : List (ChannelDelivery Part Address))
        × (claim_channel_delivery now i (retry_channel_delivery i user rows).1
            ≡ (some taken, rows'))
        × (taken.attempt_count ≡ 1)
        × (taken.parts_sent ≡ d.parts_sent)
  unfolding claimed
  retry_claims now user i rows d found owner unsent = (
    claimed now (reset d),
    set_delivery i (claimed now) (set_delivery i reset rows),
    subst
        (λ r. claim_channel_delivery now i r ≡ (
          some (claimed now (reset d)),
          set_delivery i (claimed now) (set_delivery i reset rows),
        ))
        (ap (λ r. r.1) (sym (retry_resets user i rows d found owner unsent)))
        (claim_ready now i (set_delivery i reset rows) (reset d)
          (cc (get-set i i reset rows (λ row. refl), eq_refl i, found)) refl),
    refl,
    refl,
  )
