-- ===== src/Orders/Concurrent.antt =====
-- services/orders-svc/main.go: handleCreate as it runs beside the others. A handler takes one step at
-- a time: the id, the charge, the load of the flag, the publish; between any two of them, other
-- handlers go on and the watcher may store the flag.
use reliability_lab.Common.{
  ℕ, ◌≡◌, update, String, Option, some, Bool, not, if◌then◌else◌, Result, ok, err,
}
use reliability_lab.Common.Int.{eq_ℤ}
use reliability_lab.Gen.PaymentsV1.{
  ChargeResponse, charge_authorized, get_status, get_decline_reason, get_payment_id,
}
use reliability_lab.Orders.Create.{
  OrderRequest, Response, payments_unavailable, declined, created, App, charge_request, event_msg,
}

-- Where a handler of a decoded request stands: before its id, its charge, its load of the flag and
-- its publish, or answered.
pub data Handler (E : Type 0) : Type 0 where
  idle : Handler E
  entered : OrderRequest → Handler E
  charging : String → OrderRequest → Handler E
  deciding : String → OrderRequest → Result E (Option ChargeResponse) → Handler E
  publishing : String → OrderRequest → Option ChargeResponse → Handler E
  answered : Response → Handler E

-- What follows an authorized charge: the load of the flag.
unfoldable pub decided :
    {E : Type 0} → Bool → String → OrderRequest → Option ChargeResponse → Handler E
decided paused order_id req resp =
    if not paused
    then publishing order_id req resp
    else answered (created order_id (get_payment_id resp))

module _ {W E : Type 0} where
  -- The next step of a handler, where the flag has this value.
  unfoldable pub advance : App W E → Bool → Handler E → W → Handler E × W
  unfolding decided
  advance a paused idle w = (idle, w)
  advance a paused (entered req) w =
      let (order_id, w') = a.new_string w in (charging order_id req, w')
  advance a paused (charging order_id req) w =
      let (resp, w') = a.pay (some (charge_request order_id req)) w in
      (deciding order_id req resp, w')
  advance a paused (deciding order_id req (err e)) w = (answered payments_unavailable, w)
  advance a paused (deciding order_id req (ok resp)) w =
      if not (eq_ℤ (get_status resp) charge_authorized)
      then (answered (declined (get_decline_reason resp)), w)
      else (decided paused order_id req resp, w)
  advance a paused (publishing order_id req resp) w = (
    answered (created order_id (get_payment_id resp)),
    (a.publish_msg (event_msg a order_id req w) w).1,
  )
  advance a paused (answered r) w = (answered r, w)

-- The handlers by their number, the flag, and the state of their collaborators.
pub record Orders (W E : Type 0) : Type 0 where
  pub paused : Bool
  pub world : W
  pub handlers : ℕ → Handler E

module _ {W E : Type 0} (a : App W E) where
  abbrev pub moved : Orders W E → ℕ → Orders W E
  moved s i =
      let (h, w) = advance a s.paused (s.handlers i) s.world in
      record s { world = w; handlers = update s.handlers i h }

  pub data Step (s : Orders W E) : Orders W E → Type 0 where
    flag : (b : Bool) → Step s (record s { paused = b })
    arrive :
        (i : ℕ) (req : OrderRequest)
        → s.handlers i ≡ idle
        → Step s (record s { handlers = update s.handlers i (entered req) })
    move : (i : ℕ) → Step s (moved s i)
