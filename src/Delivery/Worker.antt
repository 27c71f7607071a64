-- ===== src/Delivery/Worker.antt =====
-- `process_channel_delivery`, `dispatch_channel_deliveries` and `_mark_delivery_failure` of
-- app/mneme/channels/delivery.py. The adapter of a channel acts on a world `W`.
use reminder.Prelude.{
  ℕ, zero, suc, ◌+◌, ◌-◌, ◌*◌, ◌^◌, min, String, Bool, true, ◌&&◌, not, Option, none, some, List,
  [], ◌∷◌, map, leb, if◌then◌else◌, drop, length,
}
use reminder.Delivery.Rows.{
  Status, failed, dead_letter, ChannelDelivery, claim_channel_delivery, complete_channel_delivery,
  fail_channel_delivery, recover_stale_channel_deliveries, list_dispatchable_channel_deliveries,
}

-- What the module reads of app/mneme/conf/config.py.
pub record Settings : Type 0 where
  pub retry_base_seconds : ℕ
  pub stale_seconds : ℕ
  pub dispatch_batch_size : ℕ

-- How a call of an adapter ends: a receipt, ChannelPartialDeliveryError, another
-- ChannelGatewayError, or any other exception.
pub data Sent : Type 0 where
  receipt : (sent_count : ℕ) → (external_message_ids : List String) → Sent
  partial :
      (sent_count : ℕ) → (external_message_ids : List String) → (retryable : Bool) → String → Sent
  gateway_error : (retryable : Bool) → String → Sent
  crash : Sent

pub record ChannelDeliveryRequest (Part Address : Type 0) : Type 0 where
  pub delivery_id : String
  pub address : Address
  pub parts : List Part

-- The adapters of `get_channel_adapter`, by the channel's name.
abbrev pub Send : (Part Address W : Type 0) → Type 0
Send Part Address W = (channel : String) → ChannelDeliveryRequest Part Address → W → Sent × W

pub data Report : Type 0 where
  skipped : Report
  succeeded : (sent_count : ℕ) → Report
  raised : Report

pub record System (Part Address W : Type 0) : Type 0 where
  pub deliveries : List (ChannelDelivery Part Address)
  pub world : W

abbrev pub failure_status : (attempt_count max_attempts : ℕ) → (retryable : Bool) → Status
failure_status attempt_count max_attempts retryable =
    if retryable && not (leb max_attempts attempt_count) then failed else dead_letter

-- min(base * 2 ** max(0, attempt_count - 1), 3600); `-` on ℕ is that maximum.
unfoldable pub retry_delay : Settings → (attempt_count : ℕ) → ℕ
retry_delay settings attempt_count =
    min (settings.retry_base_seconds * 2 ^ (attempt_count - 1)) 3600

abbrev pub count_report : Report → ℕ × ℕ → ℕ × ℕ
count_report raised (d, f) = (d, f + 1)
count_report _ (d, f) = (d + 1, f)

module _ {Part Address : Type 0} (settings : Settings) where
  unfoldable pub mark_delivery_failure :
      (now : ℕ)
      → ChannelDelivery Part Address
      → (sent_count : ℕ) → (external_message_ids : List String) → (retryable : Bool)
      → (error : String) → List (ChannelDelivery Part Address)
      → List (ChannelDelivery Part Address)
  mark_delivery_failure now delivery sent_count ids retryable error =
      let status = failure_status delivery.attempt_count delivery.max_attempts retryable in
      fail_channel_delivery delivery.id sent_count ids status
        (elim status [
          | failed ↦ some (now + retry_delay settings delivery.attempt_count)
          | _ ↦ none
        ])
        error

  -- What `process_channel_delivery` writes and reports once the adapter has ended.
  unfoldable pub conclude :
      {W : Type 0}
      → (now : ℕ) → ChannelDelivery Part Address
      → Sent × W
      → List (ChannelDelivery Part Address)
      → Report × System Part Address W
  conclude now delivery (receipt sent_count ids, world) rows = (
    succeeded sent_count,
    record {
      deliveries = complete_channel_delivery delivery.id sent_count ids now rows;
      world = world;
    },
  )
  conclude now delivery (partial sent_count ids retryable error, world) rows = (
    raised,
    record {
      deliveries = mark_delivery_failure now delivery sent_count ids retryable error rows;
      world = world;
    },
  )
  conclude now delivery (gateway_error retryable error, world) rows = (
    raised,
    record {
      deliveries = mark_delivery_failure now delivery 0 [] retryable error rows;
      world = world;
    },
  )
  conclude now delivery (crash, world) rows = (
    raised,
    record {
      deliveries = mark_delivery_failure now delivery 0 [] true "channel delivery failed" rows;
      world = world;
    },
  )

module _ {Part Address W : Type 0} (settings : Settings) (send : Send Part Address W) where
  -- The request for the parts that were not sent before.
  unfoldable pub request_of : ChannelDelivery Part Address → ChannelDeliveryRequest Part Address
  request_of delivery = record {
    delivery_id = delivery.id;
    address = delivery.address;
    parts = drop delivery.parts_sent delivery.parts;
  }

  -- The rest of `process_channel_delivery`, from what the claim returned.
  abbrev pub after_claim :
      (now : ℕ)
      → Option (ChannelDelivery Part Address) × List (ChannelDelivery Part Address)
      → W
      → Report × System Part Address W
  after_claim now (none, rows) world = (skipped, record { deliveries = rows; world = world })
  after_claim now (some delivery, rows) world =
      conclude settings now delivery (send delivery.channel (request_of delivery) world) rows

  unfoldable pub process_channel_delivery :
      (now : ℕ) → String → System Part Address W → Report × System Part Address W
  process_channel_delivery now delivery_id s =
      after_claim now (claim_channel_delivery now delivery_id s.deliveries) s.world

  unfoldable pub dispatch_each :
      (now : ℕ) → List String → System Part Address W → (ℕ × ℕ) × System Part Address W
  dispatch_each now [] s = ((0, 0), s)
  dispatch_each now (delivery_id ∷ rest) s =
      let (report, s') = process_channel_delivery now delivery_id s in
      let (counts, s'') = dispatch_each now rest s' in (count_report report counts, s'')

  -- (matched, dispatched, failed, recovered). A limit of None or 0 is the configured one.
  unfoldable pub dispatch_channel_deliveries :
      (now : ℕ) → (limit : ℕ) → System Part Address W → (ℕ × ℕ × ℕ × ℕ) × System Part Address W
  unfolding dispatch_each
  dispatch_channel_deliveries now limit s =
      let bound : ℕ = elim limit [ zero ↦ settings.dispatch_batch_size | suc n ↦ suc n ] in
      let (recovered, rows) =
        recover_stale_channel_deliveries (now - settings.stale_seconds) now s.deliveries in
      let listed = list_dispatchable_channel_deliveries now bound rows in
      let (counts, s') =
        dispatch_each now (map (λ delivery. delivery.id) listed) (record s { deliveries = rows }) in
      ((length listed, counts.0, counts.1, recovered), s')
