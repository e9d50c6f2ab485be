-- ===== src/System/Reserved.antt =====
-- orders-svc with any orders on their way, over payments-svc and inventory-svc, whose answers may be
-- lost: what the inventory holds for them.
pub mod Ledger
pub mod Own
use reliability_lab.Common.{ℕ, ◌+◌, ◌≡◌, ◌⊎◌, String, Option, some, Result, ok, err}
use reliability_lab.Common.Int.{ℤ}
use reliability_lab.Gen.Rpc.{Method, Invoke}
use reliability_lab.Gen.InventoryV1.{ReserveRequest, ReserveResponse, reserve_full_method}
use reliability_lab.Gen.PaymentsV1.{
  ChargeRequest, ChargeResponse, charge_full_method, charge_authorized, get_status,
}
use reliability_lab.Orders.Create.{App, Msg, Response, created}
use reliability_lab.Orders.Concurrent
use reliability_lab.Orders.Concurrent.{
  Handler, idle, entered, charging, deciding, publishing, answered, Orders,
}
use reliability_lab.System.OrderChain.{Net, Delivers, serve_reserve, serve_charge, chained}

-- What gRPC documents of a call: an answer that arrives is the server's, which has carried the call
-- out; a call that fails has been carried out, or not.
pub record Carries {J E Req Resp : Type 0} (invoke : Invoke (Net J) E Req Resp)
    (full_method : String) (srv : Method (Net J) E Req Resp) : Type 0 where
  pub delivers : Delivers invoke full_method srv
  pub fails :
      (req : Req) (x x' : Net J) (e : E)
      → invoke full_method (some req) x ≡ (err e, x')
      → (x' ≡ x) ⊎ (x' ≡ (srv (some req) x).1)

-- The inventory is as it was, and no id has been drawn.
abbrev pub SameInventory : {J : Type 0} → Net J → Net J → Type 0
SameInventory x x' = (x'.store ≡ x.store) × (x'.drawn ≡ x.drawn)

-- The charge of the handler's order is authorized.
abbrev pub IsConfirmed : {E : Type 0} → Handler E → Type 0
IsConfirmed (deciding order_id req (ok resp)) = get_status resp ≡ charge_authorized
IsConfirmed (publishing order_id req resp) = Unit {0}
IsConfirmed (answered (created order_id payment_id)) = Unit {0}
IsConfirmed _ = ⊥

module _ {J E : Type 0} (uuid : ℕ → String) (inv : Invoke (Net J) E ReserveRequest ReserveResponse)
    (pay : Invoke (Net J) E ChargeRequest ChargeResponse) (app : App (Net J) E) where
  -- A step of orders-svc; or payments-svc or inventory-svc carries out a call of another client, or one
  -- that its client has given up; or JetStream goes on.
  pub data Step (s : Orders (Net J) E) : Orders (Net J) E → Type 0 where
    ordered : {t : Orders (Net J) E} → Concurrent.Step (chained E uuid app pay) s t → Step s t
    charged :
        (req : ChargeRequest)
        → Step s (record s { world = (serve_charge E uuid inv (some req) s.world).1 })
    reserved :
        (req : ReserveRequest)
        → Step s (record s { world = (serve_reserve E uuid (some req) s.world).1 })
    elsewhere : (x : Net J) → SameInventory s.world x → Step s (record s { world = x })

  -- From the start, with any inventory and no order.
  pub data Reach (start_at : Net J) : Orders (Net J) E → Type 0 where
    start :
        {paused : _}
        → Reach start_at (record { paused = paused; world = start_at; handlers = λ i. idle })
    later : {s t : Orders (Net J) E} → Reach start_at s → Step s t → Reach start_at t
