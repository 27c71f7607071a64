-- ===== src/Delivery/Tracked.antt =====
-- Every row of the deliveries of app/mneme/channels/delivery.py behind a delivery and behind a worker
-- that stops in one.
use mathlib.Core.List.{}
use reminder.Prelude.{
  ℕ, String, ◌≡◌, refl, sym, subst, inl, inr, Option, none, some, List, ◌==◌, eq_iff, Bool-cases,
  take,
}
use reminder.Delivery.Parts.{}
use reminder.Delivery.Rows.{
  ChannelDelivery, get_delivery, set_delivery, claimed, claim_channel_delivery,
}
use reminder.Delivery.Access.{claim_cases, claimed-there, claimed-row}
use reminder.Delivery.Worker.{
  Settings, Sent, receipt, partial, gateway_error, crash, ChannelDeliveryRequest, Send, System,
  conclude, request_of, process_channel_delivery,
}
use reminder.Delivery.Resume.{
  concluded, conclude-row, Channel, IsLawful, IsTracked, later-IsTracked, concluded-IsTracked,
}

module _ {Part Address W : Type 0} (settings : Settings) (send : Send Part Address W) where
  process_none :
      (now : ℕ) (i : String) (s : System Part Address W)
      → claim_channel_delivery now i s.deliveries ≡ (none, s.deliveries)
      → (process_channel_delivery settings send now i s).1 ≡ s
  unfolding process_channel_delivery
  process_none now i s e = rw (process_channel_delivery, e)

  process_some :
      (now : ℕ) (i : String) (s : System Part Address W) {d : ChannelDelivery Part Address}
      {rows : List (ChannelDelivery Part Address)}
      → claim_channel_delivery now i s.deliveries ≡ (some d, rows)
      → process_channel_delivery settings send now i s
        ≡ conclude settings now d (send d.channel (request_of settings send d) s.world) rows
  unfolding process_channel_delivery
  process_some now i s e = rw (process_channel_delivery, e)

module _ {Part Address W : Type 0} (settings : Settings) (c : Channel Part Address W)
    (lawful : IsLawful c) where
  -- Every row is tracked.
  abbrev pub AllTracked : System Part Address W → Type 0
  AllTracked s =
      (j : String) (row : ChannelDelivery Part Address)
      → get_delivery j s.deliveries ≡ some row
      → IsTracked row (c.acknowledged s.world j)

  claimed-IsTracked :
      (now : ℕ) (row : ChannelDelivery Part Address) (acknowledged : List Part)
      → IsTracked row acknowledged
      → IsTracked (claimed now row) acknowledged
  unfolding claimed
  claimed-IsTracked now row acknowledged t = record {
    sent = t.sent;
    within = t.within;
    whole = λ h. cc;
  }

  -- A call of the adapter keeps any row tracked that it does not write.
  sent-IsTracked :
      (channel : String) (request : ChannelDeliveryRequest Part Address) (world : W) (j : String)
      (row : ChannelDelivery Part Address)
      → IsTracked row (c.acknowledged world j)
      → IsTracked row (c.acknowledged (c.send channel request world).1 j)
  sent-IsTracked channel request world j row t = elim (Bool-cases (request.delivery_id == j)) [
    | inl same ↦
        let law = lawful.sends channel request world in
        subst (λ k. IsTracked row (c.acknowledged (c.send channel request world).1 k))
          ((eq_iff request.delivery_id j).0 same)
          (subst (IsTracked row) (sym law.shape) (
            later-IsTracked (take law.count request.parts) (
              subst (λ k. IsTracked row (c.acknowledged world k))
                (sym ((eq_iff request.delivery_id j).0 same)) t)))
    | inr other ↦
        subst (IsTracked row)
          (sym
            (lawful.others channel request world j (λ k. cc ((eq_iff request.delivery_id j).1 k))))
          t
  ]

  conclude-world :
      (now : ℕ) (row : ChannelDelivery Part Address) (r : Sent × W)
      (rows : List (ChannelDelivery Part Address))
      → (conclude settings now row r rows).1.world ≡ r.1
  unfolding conclude
  conclude-world now row (receipt n ids, world) rows = refl
  conclude-world now row (partial n ids retryable error, world) rows = refl
  conclude-world now row (gateway_error retryable error, world) rows = refl
  conclude-world now row (crash, world) rows = refl

  conclude-AllTracked :
      (now : ℕ) (d : ChannelDelivery Part Address) (rows : List (ChannelDelivery Part Address))
      (world : W)
      → get_delivery d.id rows ≡ some d
      → AllTracked (record { deliveries = rows; world = world })
      → AllTracked
          (conclude settings now d (c.send d.channel (request_of settings c.send d) world) rows).1
  unfolding request_of
  conclude-AllTracked now d rows world f h j row e =
      let request = request_of settings c.send d in
      let r = c.send d.channel request world in
      let shape = conclude-row settings now d r rows j f in
      rw (conclude-world now d r rows) (elim (Bool-cases (d.id == j)) [
        | inl same ↦
            subst (λ k. IsTracked row (c.acknowledged r.1 k)) ((eq_iff d.id j).0 same)
              (subst (λ t. IsTracked t (c.acknowledged r.1 d.id)) {x = concluded settings now r.0 d}
                {y = row} (cc (shape, same, e))
                (concluded-IsTracked settings now r.0 d (c.acknowledged world d.id)
                  (c.acknowledged r.1 d.id) (h d.id d f) (lawful.sends d.channel request world)))
        | inr other ↦
            rw (lawful.others d.channel request world j (λ k. cc ((eq_iff d.id j).1 k)))
              (h j row (cc (shape, other, e)))
      ])

  pub process-AllTracked :
      (now : ℕ) (i : String) (s : System Part Address W)
      → AllTracked s
      → AllTracked (process_channel_delivery settings c.send now i s).1
  unfolding claimed
  process-AllTracked now i s h = elim (claim_cases now i s.deliveries) [
    | inl e ↦ rw (process_none settings c.send now i s e) h
    | inr (d, found, e) ↦ rw (process_some settings c.send now i s e) (
        conclude-AllTracked now (claimed now d) (set_delivery i (claimed now) s.deliveries) s.world
          (claimed-there now i s.deliveries found)
          (λ j row f.
            claimed-row now i s.deliveries found j f (λ d. IsTracked d (c.acknowledged s.world j))
              (λ row. claimed-IsTracked now row (c.acknowledged s.world j)) (h j)))
  ]

  -- A worker that stops during the call of the adapter leaves the claim; the world is then what the
  -- calls for the first `posted` parts have made of it.
  abbrev pub after_stop :
      (posted : ℕ)
      → Option (ChannelDelivery Part Address) × List (ChannelDelivery Part Address)
      → W
      → System Part Address W
  after_stop posted (none, rows) world = record { deliveries = rows; world = world }
  after_stop posted (some d, rows) world =
      let request = request_of settings c.send d in
      record {
        deliveries = rows;
        world = (c.send d.channel (record request { parts = take posted request.parts }) world).1;
      }

  pub stop-AllTracked :
      (now posted : ℕ) (i : String) (s : System Part Address W)
      → AllTracked s
      → AllTracked (after_stop posted (claim_channel_delivery now i s.deliveries) s.world)
  unfolding claimed
  stop-AllTracked now posted i s h = elim (claim_cases now i s.deliveries) [
    | inl e ↦ rw e h
    | inr (d, found, e) ↦ rw e (λ j row f.
        sent-IsTracked (claimed now d).channel
          (record (request_of settings c.send (claimed now d)) {
            parts = take posted (request_of settings c.send (claimed now d)).parts;
          })
          s.world j row
          (claimed-row now i s.deliveries found j f (λ d. IsTracked d (c.acknowledged s.world j))
            (λ row. claimed-IsTracked now row (c.acknowledged s.world j)) (h j)))
  ]
