-- ===== src/Delivery/Feishu.antt =====
-- `FeishuAdapter.send` of app/mneme/channels/adapters/feishu.py with `_get_tenant_token`,
-- `_send_text_part` and `_response_payload`, and `get_channel_adapter` of app/mneme/channels/registry.py.
-- The HTTP client and the clock are parameters over a network `N`; a time is a number of seconds.
use reminder.Prelude.{
  ℕ, ◌+◌, String, Bool, true, false, not, ◌&&◌, ◌||◌, Option, none, some, List, [], ◌∷◌, ◌++◌, ltb,
  leb, eqb, ◌==◌, if◌then◌else◌, length,
}
use reminder.Delivery.Worker.{Sent, receipt, partial, crash, ChannelDeliveryRequest, Send}

-- What the module reads of a response: its JSON may be malformed, or no object. A field is `none`
-- where it is missing or no string, or, for `expire`, 0.
pub data Body : Type 0 where
  malformed no_object : Body
  object :
      (code : ℕ) → (tenant_access_token message_id : Option String) → (expire : Option ℕ) → Body

pub record Response : Type 0 where
  pub status_code : ℕ
  pub is_error : Bool
  pub body : Body

-- How a call of the client ends: a response, a TimeoutException or NetworkError, or another exception.
pub data Reply : Type 0 where
  answered : Response → Reply
  unavailable broken : Reply

-- How a step of `send` ends: with a value, a ChannelGatewayError, or an exception of the client.
pub data Step (A : Type 0) : Type 0 where
  got : A → Step A
  gateway : (retryable : Bool) → String → Step A
  transport other : Step A

pub record Client (Part Address N : Type 0) : Type 0 where
  pub has_credentials : Bool
  pub monotonic : N → ℕ
  pub post_token : N → Reply × N
  pub post_message : (token : String) → ChannelDeliveryRequest Part Address → Part → N → Reply × N

-- The adapter with its cached token. `acknowledged` only observes: for each delivery, the parts
-- for which the service has given a message id, in that order.
pub record Feishu (Part N : Type 0) : Type 0 where
  pub tenant_token : String
  pub tenant_token_expires_at : ℕ
  pub network : N
  pub acknowledged : String → List Part

abbrev is_retryable : (status_code : ℕ) → Bool
is_retryable status_code = eqb status_code 429 || leb 500 status_code

unfoldable pub response_payload : Response → Step (Option String × Option String × Option ℕ)
response_payload response = elim response.body [
  | malformed ↦ gateway (leb 500 response.status_code) "feishu returned an invalid response"
  | no_object ↦ gateway (is_retryable response.status_code) "feishu API rejected the request"
  | object code token message_id expire ↦
      if response.is_error || not (eqb code 0)
      then gateway (is_retryable response.status_code) "feishu API rejected the request"
      else got (token, message_id, expire)
]

-- `isinstance(value, str) and value`
abbrev text_or : {A : Type 0} → Option String → (String → A) → A → A
text_or none found missing = missing
text_or (some text) found missing = if text == "" then missing else found text

abbrev expiry : (now : ℕ) → Option ℕ → ℕ
expiry now none = now + 7200
expiry now (some seconds) = now + seconds

-- The token, and its expiry by the clock, from the client's reply.
unfoldable pub token_of : (now : ℕ) → Reply → Step (String × ℕ)
unfolding response_payload
token_of now unavailable = transport
token_of now broken = other
token_of now (answered response) = elim (response_payload response) [
  | got payload ↦
      text_or payload.0 (λ token. got (token, expiry now payload.2))
        (gateway (leb 500 response.status_code) "feishu token response was invalid")
  | gateway retryable text ↦ gateway retryable text
  | transport ↦ transport
  | other ↦ other
]

unfoldable pub message_of : Reply → Step String
unfolding response_payload
message_of unavailable = transport
message_of broken = other
message_of (answered response) = elim (response_payload response) [
  | got payload ↦
      text_or payload.1 (λ message_id. got message_id)
        (gateway (is_retryable response.status_code) "feishu message delivery failed")
  | gateway retryable text ↦ gateway retryable text
  | transport ↦ transport
  | other ↦ other
]

-- What `send` raises, where it stops, with the ids of the messages sent so far.
abbrev pub ended : {A : Type 0} → (sent_ids : List String) → Step A → Sent
ended sent_ids (got value) = receipt (length sent_ids) sent_ids
ended sent_ids (gateway retryable text) = partial (length sent_ids) sent_ids retryable text
ended sent_ids transport = partial (length sent_ids) sent_ids true "feishu transport unavailable"
ended sent_ids other = crash

abbrev pub noted : {Part : Type 0} → String → Part → (String → List Part) → String → List Part
noted i part acknowledged j = if i == j then acknowledged j ++ (part ∷ []) else acknowledged j

module _ {Part N : Type 0} where
  abbrev pub stored_token : Step (String × ℕ) → N → Feishu Part N → Step String × Feishu Part N
  stored_token (got (token, expires_at)) network s = (
    got token,
    record s { tenant_token = token; tenant_token_expires_at = expires_at; network = network },
  )
  stored_token (gateway retryable text) network s =
      (gateway retryable text, record s { network = network })
  stored_token transport network s = (transport, record s { network = network })
  stored_token other network s = (other, record s { network = network })

  abbrev pub posted : String → Part → Step String → N → Feishu Part N → Feishu Part N
  posted i part (got message_id) network s = record s {
    network = network;
    acknowledged = noted i part s.acknowledged;
  }
  posted i part _ network s = record s { network = network }

module _ {Part Address N : Type 0} (client : Client Part Address N) where
  -- The second test of the cached token, behind the lock, has the outcome of the first.
  unfoldable pub get_tenant_token : Feishu Part N → Step String × Feishu Part N
  unfolding token_of
  get_tenant_token s =
      if not (s.tenant_token == "")
        && ltb (client.monotonic s.network + 60) s.tenant_token_expires_at
      then (got s.tenant_token, s)
      else if not client.has_credentials
      then (gateway false "feishu credentials are not configured", s)
      else let (reply, network) = client.post_token s.network in
        stored_token (token_of (client.monotonic network) reply) network s

  unfoldable pub send_text_part :
      (token : String)
      → ChannelDeliveryRequest Part Address
      → Part
      → Feishu Part N
      → Step String × Feishu Part N
  unfolding message_of
  send_text_part token request part s =
      let (reply, network) = client.post_message token request part s.network in
      (message_of reply, posted request.delivery_id part (message_of reply) network s)

  -- Behind the call for a part: the rest of the loop, or what is raised.
  abbrev pub behind_part :
      (sent_ids : List String)
      → Step String × Feishu Part N
      → (List String → Feishu Part N → Sent × Feishu Part N)
      → Sent × Feishu Part N
  behind_part sent_ids (got message_id, s) rest = rest (sent_ids ++ (message_id ∷ [])) s
  behind_part sent_ids (gateway retryable text, s) rest =
      (ended {A = String} sent_ids (gateway retryable text), s)
  behind_part sent_ids (transport, s) rest = (ended {A = String} sent_ids transport, s)
  behind_part sent_ids (other, s) rest = (ended {A = String} sent_ids other, s)

  unfoldable pub send_parts :
      (token : String)
      → ChannelDeliveryRequest Part Address
      → List Part
      → (sent_ids : List String) → Feishu Part N
      → Sent × Feishu Part N
  unfolding send_text_part
  send_parts token request [] sent_ids s = (receipt (length sent_ids) sent_ids, s)
  send_parts token request (part ∷ parts) sent_ids s =
      behind_part sent_ids (send_text_part token request part s) (send_parts token request parts)

  abbrev pub behind_token :
      ChannelDeliveryRequest Part Address → Step String × Feishu Part N → Sent × Feishu Part N
  behind_token request (got token, s) = send_parts token request request.parts [] s
  behind_token request (gateway retryable text, s) =
      (ended {A = String} [] (gateway retryable text), s)
  behind_token request (transport, s) = (ended {A = String} [] transport, s)
  behind_token request (other, s) = (ended {A = String} [] other, s)

  unfoldable pub send : ChannelDeliveryRequest Part Address → Feishu Part N → Sent × Feishu Part N
  unfolding get_tenant_token send_parts
  send request s = behind_token request (get_tenant_token s)

  -- Any other channel is a ValueError, which `process_channel_delivery` takes for a crash.
  unfoldable pub get_channel_adapter : Send Part Address (Feishu Part N)
  unfolding send
  get_channel_adapter channel request s = if channel == "feishu" then send request s else (crash, s)
