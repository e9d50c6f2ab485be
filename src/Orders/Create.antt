-- ===== src/Orders/Create.antt =====
-- services/orders-svc/main.go: handleCreate. The decoded body, the payments client, uuid.NewString,
-- the clock, the trace propagator and JetStream are arguments; JSON texts stay records.
pub mod Outcomes
pub mod Counted
pub mod Body
use reliability_lab.Common.{
  ℕ, List, Option, none, some, Bool, true, false, not, String, ◌++◌, if◌then◌else◌, Result, ok, err,
}
use reliability_lab.Common.Int.{ℤ, eq_ℤ}
use reliability_lab.Common.Dict.{Dict}
use reliability_lab.Gen.Rpc.{Method}
use reliability_lab.Gen.PaymentsV1.{
  ChargeRequest, ChargeResponse, charge_authorized, get_status, get_decline_reason, get_payment_id,
}

pub record OrderRequest : Type 0 where
  pub customer_id : String
  pub customer_email : String
  pub amount_minor : ℤ
  pub currency : String
  pub sku : String
  pub quantity : ℤ

pub record OrderEvent : Type 0 where
  pub order_id : String
  pub customer_id : String
  pub customer_email : String
  pub amount_minor : ℤ
  pub currency : String
  pub created_at : ℕ

-- nats.Msg, with the event that its data encode.
pub record Msg : Type 0 where
  pub subject : String
  pub payload : OrderEvent
  pub header : Dict String

-- The responses: http.Error with a text, of which a decline carries the reason, or the JSON object.
pub data Response : Type 0 where
  invalid_json : Response
  payments_unavailable : Response
  declined : String → Response
  created : String → String → Response

-- The status code of a response.
unfoldable pub status_of : Response → ℕ
status_of invalid_json = 400
status_of payments_unavailable = 502
status_of (declined reason) = 402
status_of (created order_id payment_id) = 200

-- The collaborators of the handler, over their state `W`.
pub record App (W E : Type 0) : Type 0 where
  pub pay : Method W E ChargeRequest ChargeResponse
  pub new_string : W → String × W
  pub now : W → ℕ
  pub inject : W → Dict String
  pub publish_msg : Msg → W → Option E × W
  pub subject : String
  pub publishing_paused : Bool

abbrev pub charge_request : String → OrderRequest → ChargeRequest
charge_request order_id req = record {
  order_id = order_id;
  customer_id = req.customer_id;
  amount_minor = req.amount_minor;
  currency = req.currency;
}

module _ {W E : Type 0} where
  abbrev pub event_msg : App W E → String → OrderRequest → W → Msg
  event_msg a order_id req w = record {
    subject = a.subject;
    payload = record {
      order_id = order_id;
      customer_id = req.customer_id;
      customer_email = req.customer_email;
      amount_minor = req.amount_minor;
      currency = req.currency;
      created_at = a.now w;
    };
    header = a.inject w;
  }

  -- The publish, whose error is dropped, and the response.
  unfoldable pub authorized :
      App W E → String → OrderRequest → Option ChargeResponse → W → Response × W
  authorized a order_id req resp w =
      let w' =
        if not a.publishing_paused then (a.publish_msg (event_msg a order_id req w) w).1 else w in
      (created order_id (get_payment_id resp), w')

  -- What follows the call of Charge.
  unfoldable pub charged :
      App W E → String → OrderRequest → Result E (Option ChargeResponse) → W → Response × W
  unfolding authorized
  charged a order_id req (err e) w = (payments_unavailable, w)
  charged a order_id req (ok resp) w =
      if not (eq_ℤ (get_status resp) charge_authorized)
      then (declined (get_decline_reason resp), w)
      else authorized a order_id req resp w

  unfoldable pub handle_create : App W E → Option OrderRequest → W → Response × W
  unfolding charged
  handle_create a none w = (invalid_json, w)
  handle_create a (some req) w =
      let (order_id, w1) = a.new_string w in
      let (resp, w2) = a.pay (some (charge_request order_id req)) w1 in
      charged a order_id req resp w2
