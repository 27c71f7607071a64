-- ===== src/Delivery/Resume.antt =====
-- What a delivery makes of a row, and of the parts that are acknowledged for it.
use mathlib.Core.List.{Sublistᴰ}
use reminder.Prelude.{
  ℕ, ◌+◌, ◌≤◌, String, ◌≡◌, ◌≢◌, sym, subst, true, Bool, Option, none, some, List, [], ◌++◌, ◌==◌,
  if◌then◌else◌, eq_iff, arith, length, take, drop, length-drop,
}
use reminder.Delivery.Parts.{append-Sublist, grow-Sublist, take-Sublist, take-take-drop}
use reminder.Delivery.Rows.{
  Status, succeeded, failed, ChannelDelivery, get_delivery, completed, refused,
}
use reminder.Delivery.Access.{get_complete, get-fail}
use reminder.Delivery.Worker.{
  Settings, Sent, receipt, partial, gateway_error, crash, ChannelDeliveryRequest, Send,
  failure_status, retry_delay, mark_delivery_failure, conclude,
}

-- How many parts a call of an adapter is recorded to have sent.
abbrev pub recorded : Sent → ℕ
recorded (receipt n ids) = n
recorded (partial n ids retryable error) = n
recorded _ = 0

abbrev pub IsReceipt : Sent → Type 0
IsReceipt (receipt n ids) = Unit
IsReceipt _ = ⊥

module _ {Part Address : Type 0} (settings : Settings) where
  -- The row behind a delivery, from the claimed row.
  abbrev pub concluded : ℕ → Sent → ChannelDelivery Part Address → ChannelDelivery Part Address
  concluded now (receipt n ids) row = completed n ids now row
  concluded now (partial n ids retryable error) row =
      let status = failure_status row.attempt_count row.max_attempts retryable in
      refused n ids status
        (elim status [ failed ↦ some (now + retry_delay settings row.attempt_count) | _ ↦ none ])
        error row
  concluded now (gateway_error retryable error) row =
      let status = failure_status row.attempt_count row.max_attempts retryable in
      refused 0 [] status
        (elim status [ failed ↦ some (now + retry_delay settings row.attempt_count) | _ ↦ none ])
        error row
  concluded now crash row =
      let status = failure_status row.attempt_count row.max_attempts true in
      refused 0 [] status
        (elim status [ failed ↦ some (now + retry_delay settings row.attempt_count) | _ ↦ none ])
        "channel delivery failed" row

  pub conclude-row :
      {W : Type 0} (now : ℕ) (row : ChannelDelivery Part Address) (r : Sent × W)
      (rows : List (ChannelDelivery Part Address)) (j : String)
      → get_delivery row.id rows ≡ some row
      → get_delivery j (conclude settings now row r rows).1.deliveries
        ≡ (if row.id == j then some (concluded now r.0 row) else get_delivery j rows)
  unfolding conclude mark_delivery_failure
  conclude-row now row (receipt n ids, world) rows j e =
      rw get_complete (ground (arith, eq_iff row.id j))
  conclude-row now row (partial n ids retryable error, world) rows j e =
      rw get-fail (ground (arith, eq_iff row.id j))
  conclude-row now row (gateway_error retryable error, world) rows j e =
      rw get-fail (ground (arith, eq_iff row.id j))
  conclude-row now row (crash, world) rows j e = rw get-fail (ground (arith, eq_iff row.id j))

-- An adapter, and the parts that the service has acknowledged for a delivery, in that order.
pub record Channel (Part Address W : Type 0) : Type 0 where
  pub send : Send Part Address W
  pub acknowledged : W → String → List Part

-- What an adapter promises: the service has acknowledged the first parts of those it was given, at
-- least as many as it reports, and all of them where it gives a receipt.
pub record Reaches {Part : Type 0} (before parts : List Part) (r : Sent) (after : List Part)
    : Type 0 where
  pub count : ℕ
  pub reported : recorded r ≤ count
  pub within : count ≤ length parts
  pub all : IsReceipt r → recorded r ≡ length parts
  pub shape : after ≡ before ++ take count parts

pub record IsLawful {Part Address W : Type 0} (c : Channel Part Address W) : Type 0 where
  pub sends :
      (channel : String) (request : ChannelDeliveryRequest Part Address) (world : W)
      → Reaches
          (c.acknowledged world request.delivery_id)
          request.parts
          (c.send channel request world).0
          (c.acknowledged (c.send channel request world).1 request.delivery_id)
  pub others :
      (channel : String) (request : ChannelDeliveryRequest Part Address) (world : W) (j : String)
      → request.delivery_id ≢ j
      → c.acknowledged (c.send channel request world).1 j ≡ c.acknowledged world j

-- No part is taken for sent that was not: the first `parts_sent` parts have been acknowledged, in
-- order, and all of them, once the delivery has succeeded. A part may have been acknowledged more
-- than once.
pub record IsTracked {Part Address : Type 0} (row : ChannelDelivery Part Address)
    (acknowledged : List Part) : Type 0 where
  pub sent : Sublistᴰ (take row.parts_sent row.parts) acknowledged
  pub within : row.parts_sent ≤ length row.parts
  pub whole : row.status ≡ succeeded → row.parts_sent ≡ length row.parts

pub later-IsTracked :
    {Part Address : Type 0} {row : ChannelDelivery Part Address} {before : List Part}
    (more : List Part)
    → IsTracked row before
    → IsTracked row (before ++ more)
later-IsTracked more t = record {
  sent = grow-Sublist more t.sent;
  within = t.within;
  whole = t.whole;
}

not_succeeded :
    (attempts limit : ℕ) (retryable : Bool) → failure_status attempts limit retryable ≢ succeeded
not_succeeded attempts limit retryable h = ground arith

-- The parts of a further call, behind those before.
more_sent :
    {Part Address : Type 0} (n m : ℕ) (row : ChannelDelivery Part Address) (before : List Part)
    → IsTracked row before
    → n ≤ m
    → Sublistᴰ
        (take (row.parts_sent + n) row.parts)
        (before ++ take m (drop row.parts_sent row.parts))
more_sent n m row before t le =
    subst (λ l. Sublistᴰ l (before ++ take m (drop row.parts_sent row.parts)))
      (take-take-drop row.parts_sent n row.parts)
      (append-Sublist t.sent (take-Sublist n m (drop row.parts_sent row.parts) le))

refused-IsTracked :
    {Part Address : Type 0} (n m : ℕ) (ids : List String) (status : Status) (next : Option ℕ)
    (error : String) (row : ChannelDelivery Part Address) (before : List Part)
    → IsTracked row before
    → status ≢ succeeded
    → n ≤ m
    → m ≤ length (drop row.parts_sent row.parts)
    → IsTracked
        (refused n ids status next error row)
        (before ++ take m (drop row.parts_sent row.parts))
unfolding refused
refused-IsTracked n m ids status next error row before t ne le fits = record {
  sent = more_sent n m row before t le;
  within = omega (arith, length-drop row.parts_sent row.parts, t.within);
  whole = λ h. absurd (ne h);
}

completed-IsTracked :
    {Part Address : Type 0} (n m : ℕ) (ids : List String) (now : ℕ)
    (row : ChannelDelivery Part Address) (before : List Part)
    → IsTracked row before
    → n ≡ length (drop row.parts_sent row.parts)
    → n ≤ m
    → IsTracked (completed n ids now row) (before ++ take m (drop row.parts_sent row.parts))
unfolding completed
completed-IsTracked n m ids now row before t e le = record {
  sent = more_sent n m row before t le;
  within = omega (arith, length-drop row.parts_sent row.parts, t.within);
  whole = λ h. omega (arith, length-drop row.parts_sent row.parts, t.within);
}

pub concluded-IsTracked :
    {Part Address : Type 0} (settings : Settings) (now : ℕ) (r : Sent)
    (row : ChannelDelivery Part Address) (before after : List Part)
    → IsTracked row before
    → Reaches before (drop row.parts_sent row.parts) r after
    → IsTracked (concluded settings now r row) after
concluded-IsTracked settings now (receipt n ids) row before after t h =
    subst (IsTracked _) (sym h.shape)
      (completed-IsTracked n h.count ids now row before t (h.all tt) h.reported)
concluded-IsTracked settings now (partial n ids retryable error) row before after t h =
    subst (IsTracked _) (sym h.shape) (
      refused-IsTracked n h.count ids _ _ error row before t (not_succeeded _ _ retryable)
        h.reported h.within)
concluded-IsTracked settings now (gateway_error retryable error) row before after t h =
    subst (IsTracked _) (sym h.shape) (
      refused-IsTracked 0 h.count [] _ _ _ row before t (not_succeeded _ _ retryable) h.reported
        h.within)
concluded-IsTracked settings now crash row before after t h =
    subst (IsTracked _) (sym h.shape) (
      refused-IsTracked 0 h.count [] _ _ _ row before t (not_succeeded _ _ true) h.reported
        h.within)
