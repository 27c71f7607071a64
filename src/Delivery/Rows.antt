-- ===== src/Delivery/Rows.antt =====
-- `ChannelDelivery` (app/mneme/models/channel.py) and the statements on it in app/mneme/crud/channel.py.
-- `Part` is the type of a rendered part, and `Address` the columns that only the adapters read.
use reminder.Prelude.{
  ℕ, ◌+◌, String, Bool, true, false, ◌&&◌, Option, none, some, List, [], ◌∷◌, ◌++◌, map, ltb, leb,
  eqb, if◌then◌else◌, find_row, write_row, keep, take, sort_by, length, take_chars,
}

pub data Status : Type 0 where
  pending running succeeded failed dead_letter : Status

pub record ChannelDelivery (Part Address : Type 0) : Type 0 where
  pub id : String
  pub idempotency_key : String
  pub channel : String
  pub address : Address
  pub mneme_user_id : Option ℕ
  pub parts : List Part
  pub parts_sent : ℕ
  pub external_message_ids : List String
  pub status : Status
  pub attempt_count : ℕ
  pub max_attempts : ℕ
  pub created_at : ℕ
  pub next_attempt_at : Option ℕ
  pub locked_at : Option ℕ
  pub processed_at : Option ℕ
  pub last_error : Option String

-- status IN ('pending', 'failed')
abbrev pub is_waiting : Status → Bool
is_waiting pending = true
is_waiting failed = true
is_waiting _ = false

abbrev pub is_due : (now : ℕ) → Option ℕ → Bool
is_due now none = true
is_due now (some t) = leb t now

abbrev pub is_users : (mneme_user_id : ℕ) → Option ℕ → Bool
is_users mneme_user_id none = false
is_users mneme_user_id (some user) = eqb user mneme_user_id

module _ {Part Address : Type 0} where
  unfoldable pub get_delivery :
      String → List (ChannelDelivery Part Address) → Option (ChannelDelivery Part Address)
  unfolding find_row
  get_delivery = find_row (λ delivery. delivery.id)

  unfoldable pub set_delivery :
      String
      → (ChannelDelivery Part Address → ChannelDelivery Part Address)
      → List (ChannelDelivery Part Address)
      → List (ChannelDelivery Part Address)
  unfolding write_row
  set_delivery = write_row (λ delivery. delivery.id)

  -- INSERT ... ON CONFLICT (idempotency_key) DO NOTHING RETURNING, and the row in the way.
  unfoldable pub create_or_get_channel_delivery :
      ChannelDelivery Part Address
      → List (ChannelDelivery Part Address)
      → (ChannelDelivery Part Address × Bool) × List (ChannelDelivery Part Address)
  unfolding find_row
  create_or_get_channel_delivery values rows =
      elim (find_row (λ delivery. delivery.idempotency_key) values.idempotency_key rows) [
        | none ↦ ((values, true), rows ++ (values ∷ []))
        | some existing ↦ ((existing, false), rows)
      ]

  unfoldable pub list_dispatchable_channel_deliveries :
      (now limit : ℕ) → List (ChannelDelivery Part Address) → List (ChannelDelivery Part Address)
  unfolding sort_by
  list_dispatchable_channel_deliveries now limit rows = take limit (
      sort_by (λ delivery. delivery.created_at)
        (keep (λ delivery. is_waiting delivery.status && is_due now delivery.next_attempt_at) rows))

  -- `status = 'running' AND locked_at < stale_before`
  abbrev pub is_stale : (stale_before : ℕ) → ChannelDelivery Part Address → Bool
  is_stale stale_before delivery = elim delivery.status [
    | running ↦ elim delivery.locked_at [ none ↦ false | some t ↦ ltb t stale_before ]
    | _ ↦ false
  ]

  unfoldable pub recover_row :
      (stale_before now : ℕ) → ChannelDelivery Part Address → ChannelDelivery Part Address
  recover_row stale_before now delivery =
      if is_stale stale_before delivery
      then record delivery {
        status = failed;
        locked_at = none;
        next_attempt_at = some now;
        last_error = some "channel delivery lease expired";
      }
      else delivery

  -- The UPDATE, and its row count.
  unfoldable pub recover_stale_channel_deliveries :
      (stale_before now : ℕ)
      → List (ChannelDelivery Part Address)
      → ℕ × List (ChannelDelivery Part Address)
  unfolding recover_row
  recover_stale_channel_deliveries stale_before now rows =
      (length (keep (is_stale stale_before) rows), map (recover_row stale_before now) rows)

  unfoldable pub claimed : (now : ℕ) → ChannelDelivery Part Address → ChannelDelivery Part Address
  claimed now delivery = record delivery {
    status = running;
    attempt_count = delivery.attempt_count + 1;
    locked_at = some now;
    last_error = none;
  }

  -- The row is locked by this transaction: a row that another one holds is skipped by the database.
  unfoldable pub claim_channel_delivery :
      (now : ℕ)
      → String
      → List (ChannelDelivery Part Address)
      → Option (ChannelDelivery Part Address) × List (ChannelDelivery Part Address)
  unfolding claimed
  claim_channel_delivery now delivery_id rows = elim (get_delivery delivery_id rows) [
    | none ↦ (none, rows)
    | some delivery ↦
        if is_waiting delivery.status && is_due now delivery.next_attempt_at
        then (some (claimed now delivery), set_delivery delivery_id (claimed now) rows)
        else (none, rows)
  ]

  abbrev pub reset : ChannelDelivery Part Address → ChannelDelivery Part Address
  reset delivery = record delivery {
    status = pending;
    attempt_count = 0;
    next_attempt_at = none;
    locked_at = none;
    processed_at = none;
    last_error = none;
  }

  unfoldable pub retry_channel_delivery :
      String
      → (mneme_user_id : ℕ) → List (ChannelDelivery Part Address)
      → Option (ChannelDelivery Part Address) × List (ChannelDelivery Part Address)
  retry_channel_delivery delivery_id mneme_user_id rows = elim (get_delivery delivery_id rows) [
    | none ↦ (none, rows)
    | some delivery ↦
        if is_users mneme_user_id delivery.mneme_user_id
        then elim delivery.status [
          | succeeded ↦ (some delivery, rows)
          | _ ↦ (some (reset delivery), set_delivery delivery_id reset rows)
        ]
        else (none, rows)
  ]

  unfoldable pub completed :
      (sent_count : ℕ)
      → (external_message_ids : List String) → (now : ℕ) → ChannelDelivery Part Address
      → ChannelDelivery Part Address
  completed sent_count external_message_ids now delivery = record delivery {
    parts_sent = delivery.parts_sent + sent_count;
    external_message_ids = delivery.external_message_ids ++ external_message_ids;
    status = succeeded;
    processed_at = some now;
    locked_at = none;
    next_attempt_at = none;
    last_error = none;
  }

  unfoldable pub complete_channel_delivery :
      String
      → (sent_count : ℕ) → (external_message_ids : List String) → (now : ℕ)
      → List (ChannelDelivery Part Address)
      → List (ChannelDelivery Part Address)
  unfolding completed
  complete_channel_delivery delivery_id sent_count ids now =
      set_delivery delivery_id (completed sent_count ids now)

  unfoldable pub refused :
      (sent_count : ℕ)
      → (external_message_ids : List String) → Status
      → (next_attempt_at : Option ℕ) → (error : String) → ChannelDelivery Part Address
      → ChannelDelivery Part Address
  refused sent_count external_message_ids status next_attempt_at error delivery = record delivery {
    parts_sent = delivery.parts_sent + sent_count;
    external_message_ids = delivery.external_message_ids ++ external_message_ids;
    status = status;
    next_attempt_at = next_attempt_at;
    locked_at = none;
    last_error = some (take_chars 1000 error);
  }

  unfoldable pub fail_channel_delivery :
      String
      → (sent_count : ℕ) → (external_message_ids : List String) → Status
      → (next_attempt_at : Option ℕ) → (error : String) → List (ChannelDelivery Part Address)
      → List (ChannelDelivery Part Address)
  unfolding refused
  fail_channel_delivery delivery_id sent_count ids status next_attempt_at error =
      set_delivery delivery_id (refused sent_count ids status next_attempt_at error)
