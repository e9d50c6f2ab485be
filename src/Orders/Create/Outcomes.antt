-- ===== src/Orders/Create/Outcomes.antt =====
-- When an order is created, and what the publish has to do with it.
use reliability_lab.Common.{
  ◌≡◌, refl, ◌↔◌, inl, inr, Option, some, true, false, String, Bool-cases, arith, integers, Result,
  ok, err,
}
use reliability_lab.Common.Int.{eq_ℤ, eq_ℤ_iff}
use reliability_lab.Gen.PaymentsV1.{
  ChargeResponse, charge_authorized, get_status, get_decline_reason, get_payment_id,
}
use reliability_lab.Orders.Create.{
  OrderRequest, Msg, declined, created, status_of, App, charge_request, event_msg, charged,
  handle_create,
}

-- The payments service has answered, and has authorized the charge.
abbrev pub IsAuthorized : {E : Type 0} → Result E (Option ChargeResponse) → Type 0
IsAuthorized (err e) = ⊥
IsAuthorized (ok resp) = get_status resp ≡ charge_authorized

module _ {W E : Type 0} (a : App W E) (w : W) where
  -- What the payments service answers to the order.
  abbrev pub payment : OrderRequest → Result E (Option ChargeResponse) × W
  payment req = let (order_id, w1) = a.new_string w in a.pay (some (charge_request order_id req)) w1

  charged_created :
      (order_id : String) (req : OrderRequest) (r : Result E (Option ChargeResponse)) (v : W)
      → (status_of (charged a order_id req r v).0 ≡ 200) ↔ IsAuthorized r
  unfolding charged status_of
  charged_created order_id req (err e) v = ground arith
  charged_created order_id req (ok resp) v = grind integers

  -- An order that decodes is answered 200 exactly when the payments service has answered and has
  -- authorized the charge.
  pub handle_create-created :
      (req : OrderRequest)
      → (status_of (handle_create a (some req) w).0 ≡ 200) ↔ IsAuthorized (payment req).0
  unfolding handle_create
  handle_create-created req = charged_created _ req (payment req).0 (payment req).1

  charged_publishes :
      (order_id : String) (req : OrderRequest) (r : Result E (Option ChargeResponse)) (v : W)
      {id pid : String}
      → a.publishing_paused ≡ false
      → (charged a order_id req r v).0 ≡ created id pid
      → (charged a order_id req r v).1 ≡ (a.publish_msg (event_msg a id req v) v).1
  unfolding charged
  charged_publishes order_id req (err e) v {id} {pid} p c = cc
  charged_publishes order_id req (ok resp) v {id} {pid} p c =
      elim (Bool-cases (eq_ℤ (get_status resp) charge_authorized)) [
        | inl e ↦
            let same : created order_id (get_payment_id resp) ≡ created id pid = rw e at c in
            let same_id : order_id ≡ id = cc in rw (e, p) (rw same_id refl)
        | inr e ↦ let other : declined (get_decline_reason resp) ≡ created id pid = rw e at c in cc
      ]

  -- While publishing is not paused, an order that is answered as created under an id has been
  -- published under that id, with the customer's data of the request, after the charge.
  pub handle_create-publishes :
      (req : OrderRequest) {id pid : String}
      → a.publishing_paused ≡ false
      → (handle_create a (some req) w).0 ≡ created id pid
      → let w' = (payment req).1 in
        (handle_create a (some req) w).1 ≡ (a.publish_msg (event_msg a id req w') w').1
  unfolding handle_create
  handle_create-publishes req p c = charged_publishes _ req (payment req).0 (payment req).1 p c

  -- The same application with another JetStream.
  abbrev pub with_publish : (Msg → W → Option E × W) → App W E
  with_publish f = record a { publish_msg = f }

  charged_response :
      (f g : Msg → W → Option E × W) (order_id : String) (req : OrderRequest)
      (r : Result E (Option ChargeResponse)) (v : W)
      → (charged (with_publish f) order_id req r v).0
        ≡ (charged (with_publish g) order_id req r v).0
  unfolding charged
  charged_response f g order_id req (err e) v = refl
  charged_response f g order_id req (ok resp) v =
      elim (Bool-cases (eq_ℤ (get_status resp) charge_authorized)) [
        | inl e ↦ rw e refl
        | inr e ↦ rw e refl
      ]

  charged_unauthorized :
      (f g : Msg → W → Option E × W) (order_id : String) (req : OrderRequest)
      (r : Result E (Option ChargeResponse)) (v : W)
      → ¬ IsAuthorized r
      → charged (with_publish f) order_id req r v ≡ charged (with_publish g) order_id req r v
  unfolding charged
  charged_unauthorized f g order_id req (err e) v n = refl
  charged_unauthorized f g order_id req (ok resp) v n =
      elim (Bool-cases (eq_ℤ (get_status resp) charge_authorized)) [
        | inl e ↦ absurd (n ((eq_ℤ_iff (get_status resp) charge_authorized).0 e))
        | inr e ↦ rw e refl
      ]

  charged_idle :
      (f g : Msg → W → Option E × W) (order_id : String) (req : OrderRequest)
      (r : Result E (Option ChargeResponse)) (v : W)
      → a.publishing_paused ≡ true
      → charged (with_publish f) order_id req r v ≡ charged (with_publish g) order_id req r v
  unfolding charged
  charged_idle f g order_id req (err e) v p = refl
  charged_idle f g order_id req (ok resp) v p = rw p refl

  -- Whatever JetStream does with the message of an order, the response to the order is the same: a
  -- publish that fails does not fail the order.
  pub handle_create-response :
      (f g : Msg → W → Option E × W) (req : OrderRequest)
      → (handle_create (with_publish f) (some req) w).0
        ≡ (handle_create (with_publish g) (some req) w).0
  unfolding handle_create
  handle_create-response f g req = charged_response f g _ req (payment req).0 (payment req).1

  -- An order whose charge is not authorized never reaches JetStream: the response and the final
  -- state are the same for any two.
  pub handle_create-unauthorized :
      (f g : Msg → W → Option E × W) (req : OrderRequest)
      → ¬ IsAuthorized (payment req).0
      → handle_create (with_publish f) (some req) w ≡ handle_create (with_publish g) (some req) w
  unfolding handle_create
  handle_create-unauthorized f g req =
      charged_unauthorized f g _ req (payment req).0 (payment req).1

  -- While publishing is paused, no order reaches JetStream: the response and the final state are
  -- the same for any two.
  pub handle_create-idle :
      (f g : Msg → W → Option E × W) (req : OrderRequest)
      → a.publishing_paused ≡ true
      → handle_create (with_publish f) (some req) w ≡ handle_create (with_publish g) (some req) w
  unfolding handle_create
  handle_create-idle f g req = charged_idle f g _ req (payment req).0 (payment req).1
