-- ===== src/Delivery/Samples.antt =====
-- A network that takes some parts and then no more, a history over it, and the theorems at them.
use reminder.Prelude.{
  ℕ, zero, suc, ◌≡◌, refl, true, false, none, some, List, [], ◌∷◌, arith, find_row, write_row,
  take_chars,
}
use reminder.Delivery.Rows.{
  running, failed, ChannelDelivery, get_delivery, set_delivery, claimed, refused,
  claim_channel_delivery, fail_channel_delivery, create_or_get_channel_delivery,
  recover_stale_channel_deliveries,
}
use reminder.Delivery.Worker.{
  Settings, conclude, mark_delivery_failure, request_of, process_channel_delivery, retry_delay,
}
use reminder.Delivery.Feishu.{
  Response, object, Reply, answered, unavailable, Client, Feishu, response_payload, token_of,
  get_tenant_token, message_of, send_text_part, send_parts, send, get_channel_adapter,
}
use reminder.Delivery.Resume.{IsTracked}
use reminder.Delivery.Histories.{Op, create, process, apply, apply_all, history, history-IsTracked}
use reminder.Delivery.Queue.{recover_claims}

abbrev sample_settings : Settings
sample_settings = record { retry_base_seconds = 30; stale_seconds = 600; dispatch_batch_size = 20 }

abbrev accepted : Response
accepted = record {
  status_code = 200;
  is_error = false;
  body = object 0 (some "token") (some "m1") (some 7200);
}

-- The network is the number of messages that still go through.
abbrev take_part : ℕ → Reply × ℕ
take_part zero = (unavailable, zero)
take_part (suc n) = (answered accepted, n)

abbrev client : Client ℕ Unit ℕ
client = record {
  has_credentials = true;
  monotonic = λ n. 0;
  post_token = λ n. (answered accepted, n);
  post_message = λ token request part n. take_part n;
}

abbrev feishu : Feishu ℕ ℕ
feishu = record {
  tenant_token = "";
  tenant_token_expires_at = 0;
  network = 2;
  acknowledged = λ j. [];
}

-- A delivery of three parts, the first of which was sent.
abbrev half_sent : ChannelDelivery ℕ Unit
half_sent = record {
  id = "d1";
  idempotency_key = "k1";
  channel = "feishu";
  address = tt;
  mneme_user_id = some 1;
  parts = 10 ∷ 11 ∷ 12 ∷ [];
  parts_sent = 1;
  external_message_ids = [];
  status = failed;
  attempt_count = 1;
  max_attempts = 5;
  created_at = 0;
  next_attempt_at = some 40;
  locked_at = none;
  processed_at = none;
  last_error = some "busy";
}

abbrev ops : List (Op ℕ Unit)
ops = create half_sent ∷ process 50 "d1" ∷ []

-- Two parts go through, and the third is left for the next attempt.
abbrev two_sent : ChannelDelivery ℕ Unit
two_sent = record half_sent {
  parts_sent = 2;
  external_message_ids = "m1" ∷ "m1" ∷ [];
  attempt_count = 2;
  next_attempt_at = some 110;
  last_error = some "feishu transport unavailable";
}

abbrev stopped : ChannelDelivery ℕ Unit
stopped = record half_sent { status = running; locked_at = some 100 }

two_parts : get_delivery "d1" (history sample_settings client ops feishu).deliveries ≡ some two_sent
unfolding apply_all process_channel_delivery claim_channel_delivery claimed get_delivery
    set_delivery find_row write_row conclude mark_delivery_failure fail_channel_delivery refused
    retry_delay request_of take_chars create_or_get_channel_delivery get_channel_adapter send
    get_tenant_token token_of message_of response_payload send_text_part send_parts apply
two_parts = refl

history-IsTracked_example :
    IsTracked two_sent ((history sample_settings client ops feishu).world.acknowledged "d1")
history-IsTracked_example =
    history-IsTracked sample_settings client ops feishu "d1" two_sent two_parts

found_stopped : get_delivery "d1" (stopped ∷ []) ≡ some stopped
unfolding get_delivery find_row
found_stopped = refl

recover_claims_example :
    (taken : ChannelDelivery ℕ Unit) × (rows' : List (ChannelDelivery ℕ Unit))
    × (claim_channel_delivery 1000 "d1" (recover_stale_channel_deliveries 400 1000 (stopped ∷ [])).1
        ≡ (some taken, rows'))
    × (taken.attempt_count ≡ 2)
    × (taken.parts_sent ≡ 1)
    × (taken.parts ≡ (10 ∷ 11 ∷ 12 ∷ []))
recover_claims_example =
    recover_claims 400 1000 100 "d1" (stopped ∷ []) stopped found_stopped refl refl (omega arith)
