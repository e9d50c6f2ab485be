-- ===== src/System/Mailing.antt =====
-- The handlers of orders-svc, JetStream and email-worker together: POST /orders publishes what the
-- worker is given, which may be late, repeated or never. JetStream's log of messages, its filter and
-- the other collaborators of orders-svc are arguments.
pub mod Logged
pub mod Held
pub mod Mailed
use mathlib.Core.List.{Memᴰ}
use reliability_lab.Common.{
  ℕ, ◌≡◌, ◌⊎◌, String, List, [], ◌∷◌, Option, none, some, Bool, true, update, if◌then◌else◌, ok,
}
use reliability_lab.Common.Int.{eq_ℤ}
use reliability_lab.Gen.PaymentsV1.{charge_authorized, get_status}
use reliability_lab.Orders.Create.{OrderRequest, App, Msg, event_msg}
use reliability_lab.Orders.Concurrent.{Handler, idle, entered, deciding, publishing, Orders, moved}
use reliability_lab.Services.Email.{Incoming, consumer_config}
use reliability_lab.System.Events.{encode_event, decode_incoming}

-- orders-svc, the orders whose charges have been authorized, and the emails that the worker has sent.
pub record Pipeline (W E : Type 0) : Type 0 where
  pub orders : Orders W E
  pub authorized : List Incoming
  pub mailed : List Incoming
  -- The messages that orders-svc has handed to JetStream so far.
  pub attempted : List Msg

-- The order that the next step of a handler finds authorized: its id, and the email of the request.
abbrev pub noted : {E : Type 0} → Handler E → List Incoming → List Incoming
noted (deciding order_id req (ok resp)) rest =
    if eq_ℤ (get_status resp) charge_authorized
    then record { order_id = order_id; customer_email = req.customer_email } ∷ rest
    else rest
noted _ rest = rest

-- The messages that have been handed to publish_msg, with that of the next step of a handler.
abbrev pub attempted_by : {W E : Type 0} → App W E → Handler E → W → List Msg → List Msg
attempted_by a (publishing order_id req resp) w rest = event_msg a order_id req w ∷ rest
attempted_by a _ w rest = rest

-- The simulated send of a message whose data decode.
abbrev pub sent : Option Incoming → List Incoming → List Incoming
sent none rest = rest
sent (some evt) rest = evt ∷ rest

-- What JetStream documents of a publish, and that the calls of the other collaborators store no
-- message: a publish stores no message but its own, and it has stored that one when it succeeds.
pub record LogLaws {W E : Type 0} (a : App W E) (log : W → List Msg) : Type 0 where
  pub draws : (w : W) (m : Msg) → Memᴰ m (log (a.new_string w).1) → Memᴰ m (log w)
  pub pays : (w : W) (m : Msg) {req : _} → Memᴰ m (log (a.pay req w).1) → Memᴰ m (log w)
  pub stores :
      (n : Msg) (w : W) (m : Msg) → Memᴰ m (log (a.publish_msg n w).1) → (m ≡ n) ⊎ Memᴰ m (log w)
  pub confirms :
      (n : Msg) (w : W) → (a.publish_msg n w).0 ≡ none → Memᴰ n (log (a.publish_msg n w).1)

-- A step of the i-th handler.
abbrev pub worked : {W E : Type 0} → App W E → ℕ → Pipeline W E → Pipeline W E
worked a i p = record p {
  orders = moved a p.orders i;
  authorized = noted (p.orders.handlers i) p.authorized;
  attempted = attempted_by a (p.orders.handlers i) p.orders.world p.attempted;
}

-- The worker's handler of a message, which `rfc3339` has encoded.
abbrev pub delivered : {W E : Type 0} → (ℕ → String) → Msg → Pipeline W E → Pipeline W E
delivered rfc3339 m p = record p {
  mailed = sent (decode_incoming (encode_event rfc3339 m.payload)) p.mailed;
}

module _ {W E : Type 0} (a : App W E) (log : W → List Msg) (matches : String → String → Bool)
    (subject : String) (rfc3339 : ℕ → String) where
  -- The watcher stores the flag, orders arrive, and their handlers take their steps. JetStream
  -- delivers, as often as it likes, a stored message that the worker's filter matches; and the world
  -- goes on, where messages may expire, and one whose publish has failed may be stored late.
  pub data Step (p : Pipeline W E) : Pipeline W E → Type 0 where
    flag : (b : Bool) → Step p (record p { orders = record p.orders { paused = b } })
    arrive :
        (i : ℕ) (req : OrderRequest)
        → p.orders.handlers i ≡ idle
        → Step p (record p {
          orders = record p.orders { handlers = update p.orders.handlers i (entered req) };
        })
    work : (i : ℕ) → Step p (worked a i p)
    deliver :
        (m : Msg)
        → Memᴰ m (log p.orders.world)
        → matches (consumer_config subject).filter_subject m.subject ≡ true
        → Step p (delivered rfc3339 m p)
    pass :
        (w : W)
        → ((m : Msg) → Memᴰ m (log w) → Memᴰ m (log p.orders.world) ⊎ Memᴰ m p.attempted)
        → Step p (record p { orders = record p.orders { world = w } })

  -- From the start, on this flag and world and without an order.
  pub data Reach (b : Bool) (w : W) : Pipeline W E → Type 0 where
    start : Reach b w (record {
      orders = record { paused = b; world = w; handlers = λ i. idle };
      authorized = [];
      mailed = [];
      attempted = [];
    })
    later : {p q : Pipeline W E} → Reach b w p → Step p q → Reach b w q
