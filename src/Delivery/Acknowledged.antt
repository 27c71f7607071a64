-- ===== src/Delivery/Acknowledged.antt =====
-- What the adapter of Feishu (app/mneme/channels/adapters/feishu.py) reports of a call, and what the
-- service has acknowledged in it.
use mathlib.Core.List.{append-nil, append_assoc}
use reminder.Prelude.{
  ℕ, suc, ◌+◌, ◌≤◌, String, ◌≡◌, ◌≢◌, refl, sym, ap, subst, ◌∙◌, not, ◌&&◌, inl, inr, List, [], ◌∷◌,
  ◌++◌, ◌==◌, ltb, eq_iff, eq_refl, arith, Bool-cases, length, take, length-append,
}
use reminder.Delivery.Worker.{Sent, receipt, crash, ChannelDeliveryRequest}
use reminder.Delivery.Feishu.{
  Step, got, gateway, transport, other, Client, Feishu, stored_token, get_tenant_token, message_of,
  noted, posted, behind_part, send_parts, behind_token, send, get_channel_adapter,
}
use reminder.Delivery.Resume.{recorded, IsReceipt, Channel, Reaches, IsLawful}

noted_self :
    {Part : Type 0} (i : String) (part : Part) (acknowledged : String → List Part)
    → noted i part acknowledged i ≡ acknowledged i ++ (part ∷ [])
noted_self i part acknowledged = ground (arith, eq_refl i)

noted_other :
    {Part : Type 0} (i j : String) (part : Part) (acknowledged : String → List Part)
    → i ≢ j
    → noted i part acknowledged j ≡ acknowledged j
noted_other i j part acknowledged ne = ground (arith, ne, eq_iff i j)

-- The end of the loop over the parts that are left, behind the messages `sent_ids`.
record Sends {Part : Type 0} (before parts : List Part) (sent_ids : List String) (r : Sent)
    (after : List Part) : Type 0 where
  count : ℕ
  reported : recorded r ≤ length sent_ids + count
  within : count ≤ length parts
  all : IsReceipt r → recorded r ≡ length sent_ids + length parts
  shape : after ≡ before ++ take count parts

module _ {Part Address N : Type 0} (client : Client Part Address N) where
  none_sent :
      (before parts : List Part) (sent_ids : List String) (r : Sent)
      → recorded r ≤ length sent_ids
      → (IsReceipt r → recorded r ≡ length sent_ids + length parts)
      → Sends before parts sent_ids r before
  none_sent before parts sent_ids r few all = record {
    count = 0;
    reported = omega (arith, few);
    within = omega arith;
    all = all;
    shape = sym (append-nil before);
  }

  one_more :
      (before : List Part) (part : Part) (parts : List Part) (sent_ids : List String)
      (message_id : String) (r : Sent) (after : List Part)
      → Sends (before ++ (part ∷ [])) parts (sent_ids ++ (message_id ∷ [])) r after
      → Sends before (part ∷ parts) sent_ids r after
  one_more before part parts sent_ids message_id r after h = record {
    count = suc h.count;
    reported = omega (arith, h.reported, length-append sent_ids (message_id ∷ []));
    within = omega (arith, h.within);
    all = λ k. omega (arith, h.all k, length-append sent_ids (message_id ∷ []));
    shape = h.shape ∙ append_assoc before (part ∷ []) (take h.count parts);
  }

  send_parts-Sends :
      (token : String) (request : ChannelDeliveryRequest Part Address) (parts : List Part)
      (sent_ids : List String) (s : Feishu Part N)
      → Sends
          (s.acknowledged request.delivery_id)
          parts
          sent_ids
          (send_parts client token request parts sent_ids s).0
          ((send_parts client token request parts sent_ids s).1.acknowledged request.delivery_id)
  unfolding send_parts
  send_parts-Sends token request [] sent_ids s =
      none_sent _ [] sent_ids (receipt (length sent_ids) sent_ids) (omega arith) (λ k. omega arith)
  send_parts-Sends token request (part ∷ parts) sent_ids s =
      go (message_of (client.post_message token request part s.network).0)
        (client.post_message token request part s.network).1
        (λ ids t. send_parts-Sends token request parts ids t)
    where
      go :
          (step : Step String) (network : N)
          → ((ids : List String) (t : Feishu Part N)
              → Sends
                  (t.acknowledged request.delivery_id)
                  parts
                  ids
                  (send_parts client token request parts ids t).0
                  ((send_parts client token request parts ids t).1.acknowledged
                    request.delivery_id))
          → let r =
              behind_part client sent_ids
                (step, posted request.delivery_id part step network s)
                (send_parts client token request parts) in
            Sends
              (s.acknowledged request.delivery_id)
              (part ∷ parts)
              sent_ids
              r.0
              (r.1.acknowledged request.delivery_id)
      go (got message_id) network ih = one_more _ part parts sent_ids message_id _ _ (
          subst
            (λ l.
              let t = posted request.delivery_id part (got message_id) network s in
              Sends l parts (sent_ids ++ (message_id ∷ []))
                (send_parts client token request parts (sent_ids ++ (message_id ∷ [])) t).0
                ((send_parts client token request parts (sent_ids ++ (message_id ∷ []))
                    t).1.acknowledged
                  request.delivery_id))
            (noted_self request.delivery_id part s.acknowledged)
            (ih (sent_ids ++ (message_id ∷ []))
              (posted request.delivery_id part (got message_id) network s)))
      go (gateway retryable text) network ih =
          none_sent _ (part ∷ parts) sent_ids _ (omega arith) (λ k. absurd k)
      go transport network ih = none_sent _ (part ∷ parts) sent_ids _ (omega arith) (λ k. absurd k)
      go other network ih = none_sent _ (part ∷ parts) sent_ids _ (omega arith) (λ k. absurd k)

  send_parts-others :
      (token : String) (request : ChannelDeliveryRequest Part Address) (parts : List Part)
      (sent_ids : List String) (s : Feishu Part N) (j : String)
      → request.delivery_id ≢ j
      → (send_parts client token request parts sent_ids s).1.acknowledged j ≡ s.acknowledged j
  unfolding send_parts
  send_parts-others token request [] sent_ids s j ne = refl
  send_parts-others token request (part ∷ parts) sent_ids s j ne =
      go (message_of (client.post_message token request part s.network).0)
        (client.post_message token request part s.network).1
        (λ ids t. send_parts-others token request parts ids t j ne)
    where
      go :
          (step : Step String) (network : N)
          → ((ids : List String) (t : Feishu Part N)
              → (send_parts client token request parts ids t).1.acknowledged j ≡ t.acknowledged j)
          → (behind_part client sent_ids
                (step, posted request.delivery_id part step network s)
                (send_parts client token request parts)).1.acknowledged
              j
            ≡ s.acknowledged j
      go (got message_id) network ih =
          ih (sent_ids ++ (message_id ∷ []))
            (posted request.delivery_id part (got message_id) network s)
          ∙ noted_other request.delivery_id j part s.acknowledged ne
      go (gateway retryable text) network ih = refl
      go transport network ih = refl
      go other network ih = refl

  stored-acknowledged :
      (step : Step (String × ℕ)) (network : N) (s : Feishu Part N)
      → (stored_token step network s).1.acknowledged ≡ s.acknowledged
  stored-acknowledged (got (token, expires_at)) network s = refl
  stored-acknowledged (gateway retryable text) network s = refl
  stored-acknowledged transport network s = refl
  stored-acknowledged other network s = refl

  token-acknowledged :
      (s : Feishu Part N) → (get_tenant_token client s).1.acknowledged ≡ s.acknowledged
  unfolding get_tenant_token
  token-acknowledged s =
      elim (Bool-cases (
        not (s.tenant_token == "")
        && ltb (client.monotonic s.network + 60) s.tenant_token_expires_at)) [
          | inl cached ↦ rw cached refl
          | inr stale ↦ rw stale (elim (Bool-cases (not client.has_credentials)) [
            | inl missing ↦ rw missing refl
            | inr there ↦ rw there (stored-acknowledged _ (client.post_token s.network).1 s)
          ])
        ]

  behind_token-Sends :
      (request : ChannelDeliveryRequest Part Address) (step : Step String) (s : Feishu Part N)
      → Sends
          (s.acknowledged request.delivery_id)
          request.parts
          []
          (behind_token client request (step, s)).0
          ((behind_token client request (step, s)).1.acknowledged request.delivery_id)
  behind_token-Sends request (got token) s = send_parts-Sends token request request.parts [] s
  behind_token-Sends request (gateway retryable text) s =
      none_sent _ request.parts [] _ (omega arith) (λ k. absurd k)
  behind_token-Sends request transport s =
      none_sent _ request.parts [] _ (omega arith) (λ k. absurd k)
  behind_token-Sends request other s = none_sent _ request.parts [] _ (omega arith) (λ k. absurd k)

  behind_token-others :
      (request : ChannelDeliveryRequest Part Address) (step : Step String) (s : Feishu Part N)
      (j : String)
      → request.delivery_id ≢ j
      → (behind_token client request (step, s)).1.acknowledged j ≡ s.acknowledged j
  behind_token-others request (got token) s j ne =
      send_parts-others token request request.parts [] s j ne
  behind_token-others request (gateway retryable text) s j ne = refl
  behind_token-others request transport s j ne = refl
  behind_token-others request other s j ne = refl

  -- The adapters, with what Feishu has acknowledged.
  abbrev pub feishu_channel : Channel Part Address (Feishu Part N)
  feishu_channel = record { send = get_channel_adapter client; acknowledged = λ s. s.acknowledged }

  Sends-Reaches :
      {before parts after : List Part} {r : Sent}
      → Sends before parts [] r after
      → Reaches before parts r after
  Sends-Reaches h = record {
    count = h.count;
    reported = omega (arith, h.reported);
    within = h.within;
    all = λ k. omega (arith, h.all k);
    shape = h.shape;
  }

  -- The adapter reports no part that Feishu has not acknowledged.
  pub feishu-IsLawful : IsLawful feishu_channel
  unfolding get_channel_adapter send
  feishu-IsLawful = record {
    sends = λ channel request s. elim (Bool-cases (channel == "feishu")) [
      | inl feishu ↦ rw feishu (
          Sends-Reaches (
            subst
              (λ f.
                Sends (f request.delivery_id) request.parts []
                  (behind_token client request (get_tenant_token client s)).0
                  ((behind_token client request (get_tenant_token client s)).1.acknowledged
                    request.delivery_id))
              (token-acknowledged s)
              (behind_token-Sends request (get_tenant_token client s).0
                (get_tenant_token client s).1)))
      | inr unknown ↦
          rw unknown
            (Sends-Reaches (none_sent _ request.parts [] crash (omega arith) (λ k. absurd k)))
    ];
    others = λ channel request s j ne. elim (Bool-cases (channel == "feishu")) [
      | inl feishu ↦ rw feishu (
          behind_token-others request (get_tenant_token client s).0 (get_tenant_token client s).1 j
            ne
          ∙ ap (λ (f : String → List Part). f j) (token-acknowledged s))
      | inr unknown ↦ rw unknown refl
    ];
  }
