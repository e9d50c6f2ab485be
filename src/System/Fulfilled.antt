-- ===== src/System/Fulfilled.antt =====
-- An order through all four services: orders-svc with any orders on their way, payments-svc and
-- inventory-svc behind it, and the emails that email-worker sends for what JetStream delivers.
pub mod Handled
use mathlib.Core.List.{Memᴰ}
use mathlib.Core.List.Memᴰ
use reliability_lab.Common.{
  ℕ, ◌==◌, ◌≡◌, refl, sym, subst, ap, ◌⊎◌, inl, inr, Bool-cases, String, List, [], Bool, true,
  false, Option, ok, err, update, arith,
}
use reliability_lab.Common.Int.{eq_ℤ}
use reliability_lab.Gen.Rpc.{Invoke}
use reliability_lab.Gen.InventoryV1.{ReserveRequest, ReserveResponse, reserve_full_method}
use reliability_lab.Gen.PaymentsV1.{
  ChargeRequest, ChargeResponse, charge_full_method, charge_authorized, get_status,
}
use reliability_lab.Orders.Create.{
  App, Msg, OrderRequest, invalid_json, payments_unavailable, declined, created,
}
use reliability_lab.Orders.Concurrent.{
  Handler, idle, entered, charging, deciding, publishing, answered, decided, advance,
}
use reliability_lab.Services.Email.{Incoming}
use reliability_lab.System.OrderChain.{Net, serve_reserve, serve_charge, chained}
use reliability_lab.System.Mailing
use reliability_lab.System.Mailing.{Pipeline, noted, LogLaws, flag, arrive, work, deliver, pass}
use reliability_lab.System.Mailing.Mailed.{Reach-mailed}
use reliability_lab.System.Reserved
use reliability_lab.System.Reserved.{Carries, SameInventory, IsConfirmed}
use reliability_lab.System.Reserved.Own.{Owns, Reach-Owned}
use reliability_lab.System.Fulfilled.Handled.{IsOrder, IsOrder-IsConfirmed, Reach-Handled}

module _ {J E : Type 0} (uuid : ℕ → String) (inv : Invoke (Net J) E ReserveRequest ReserveResponse)
    (pay : Invoke (Net J) E ChargeRequest ChargeResponse) (app : App (Net J) E)
    (log : Net J → List Msg) (matches : String → String → Bool) (subject : String)
    (rfc3339 : ℕ → String) where
  -- A step of the mailing that is none of orders-svc and its chain, or one of Reserved.
  pub data Step (p q : Pipeline (Net J) E) : Type 0 where
    both :
        Mailing.Step (chained E uuid app pay) log matches subject rfc3339 p q
        → (q.orders ≡ p.orders) ⊎ Reserved.Step uuid inv pay app p.orders q.orders
        → Step p q

  -- From any inventory, and no order.
  pub data Reach (b : Bool) (x : Net J) : Pipeline (Net J) E → Type 0 where
    start : Reach b x (record {
      orders = record { paused = b; world = x; handlers = λ i. idle };
      authorized = [];
      mailed = [];
      attempted = [];
    })
    later : {p q : Pipeline (Net J) E} → Reach b x p → Step p q → Reach b x q

  mailing_of :
      {b : Bool} {x : Net J} {p : Pipeline (Net J) E}
      → Reach b x p
      → Mailing.Reach (chained E uuid app pay) log matches subject rfc3339 b x p
  mailing_of start = Mailing.start
  mailing_of (later before (both step orders)) = Mailing.later (mailing_of before) step

  orders_of :
      {b : Bool} {x : Net J} {p : Pipeline (Net J) E}
      → Reach b x p
      → Reserved.Reach uuid inv pay app x p.orders
  orders_of start = Reserved.start
  orders_of {x = x} (later before (both step (inl same))) =
      subst (Reserved.Reach uuid inv pay app x) (sym same) (orders_of before)
  orders_of (later before (both step (inr orders))) = Reserved.later (orders_of before) orders

  -- The order of an email, over all four services. The ids that are drawn all differ; an answer of a
  -- call that arrives is the server's, and a call that fails has been carried out or not; JetStream
  -- leaves the inventory alone, stores no message but those of its publishes, at once or late, and
  -- its log is empty at first. However orders, late calls, changes of the flag and deliveries
  -- interleave: each order whose charge is authorized has a reservation of one DEFAULT item in the
  -- inventory, no two of them have the same, and an email goes out only for the id of such an order.
  pub Reach-fulfilled :
      ((m n : ℕ) → uuid m ≡ uuid n → m ≡ n)
      → Carries inv reserve_full_method (serve_reserve E uuid)
      → Carries pay charge_full_method (serve_charge E uuid inv)
      → ((m : Msg) (x : Net J) → SameInventory x (app.publish_msg m x).1)
      → LogLaws (chained E uuid app pay) log
      → {b : Bool} {x : Net J} {p : Pipeline (Net J) E} → log x ≡ []
      → Reach b x p
      → (ids : ℕ → ℕ) × Owns uuid ids p.orders
        × ((evt : Incoming)
            → Memᴰ evt p.mailed
            → (i : ℕ) × IsConfirmed (p.orders.handlers i)
              × IsOrder (p.orders.handlers i) evt.order_id)
  Reach-fulfilled fresh inv_carries pay_carries apart laws empty run =
      let (ids, owns) =
        Reach-Owned uuid fresh inv inv_carries pay pay_carries app apart (orders_of run) in
      (
        ids,
        owns,
        (λ evt sent.
            let mailing = mailing_of run in
            let known =
              Reach-mailed (chained E uuid app pay) log matches subject rfc3339 laws empty mailing
                evt sent in
            let (i, o) =
              Reach-Handled (chained E uuid app pay) log matches subject rfc3339 mailing evt
                known in
            (i, IsOrder-IsConfirmed _ evt.order_id o, o)),
      )
