-- ===== src/Witnesses/Fulfilled.antt =====
-- Two orders at once over the four services: the answer of the first charge is lost.
use mathlib.Core.List.{Memᴰ}
use mathlib.Core.List.Memᴰ
use Prim.Native.Char.{char}
use reliability_lab.Common.{
  ℕ, zero, suc, ◌≡◌, refl, ap, subst, ◌∙◌, List, [], str_eq, inl, inr, String, Option, none, some,
  Bool, true, false, Result, ok, err, update,
}
use reliability_lab.Common.Int.{pos, leb_ℤ}
use reliability_lab.Gen.Rpc.{Invoke, reply, client_call}
use reliability_lab.Gen.InventoryV1
use reliability_lab.Gen.InventoryV1.{
  ReserveRequest, ReserveResponse, reserve_full_method, client_reserve,
}
use reliability_lab.Gen.PaymentsV1.{
  ChargeRequest, ChargeResponse, charge_full_method, client_charge, get_status,
}
use reliability_lab.Inventory.{reserve}
use reliability_lab.Payments.{charge, is_reserved}
use reliability_lab.Payments.Charges.{charge_lem}
use reliability_lab.Orders.Create.{OrderRequest, Msg, event_msg}
use reliability_lab.Orders.Concurrent.{idle, entered, arrive as arrived, move, advance}
use reliability_lab.Services.Email.{Incoming, consumer_config}
use reliability_lab.System.OrderChain.{serve_reserve, serve_charge, chained, draw}
use reliability_lab.System.Mailing.{Pipeline, LogLaws, worked, delivered, arrive, work, deliver}
use reliability_lab.System.Reserved.{Carries, IsConfirmed, ordered}
use reliability_lab.System.Reserved.Own.{Owns}
use reliability_lab.System.Fulfilled.Handled.{IsOrder}
use reliability_lab.System.Fulfilled.{Reach, start, later, both, Reach-fulfilled}
use reliability_lab.Witnesses.Shop.{ShopError, unreachable, order}
use reliability_lab.Witnesses.Chain.{Shipping, delivered as reached, app, empty}

-- Ids that all differ.
abbrev tally : ℕ → String
tally zero = String.[]
tally (suc n) = String.◌∷◌ (char 105 tt) (tally n)

abbrev rest_of : String → String
rest_of String.[] = String.[]
rest_of (String.◌∷◌ c s) = s

tally_fresh : (m n : ℕ) → tally m ≡ tally n → m ≡ n
tally_fresh zero zero e = refl
tally_fresh zero (suc n) e = cc
tally_fresh (suc m) zero e = cc
tally_fresh (suc m) (suc n) e = ap suc (tally_fresh m n (ap rest_of e))

delivered_ok :
    {Resp : Type 0} (r : Result ShopError (Option Resp) × Shipping) (resp : Resp) (x : Shipping)
    → reached r ≡ (ok resp, x)
    → r ≡ (ok (some resp), x)
delivered_ok (err e, y) resp x h = cc
delivered_ok (ok none, y) resp x h = cc
delivered_ok (ok (some a), y) resp x h = cc

delivered_err :
    {Resp : Type 0} (r : Result ShopError (Option Resp) × Shipping) (e : ShopError) (x : Shipping)
    → reached r ≡ (err e, x)
    → x ≡ r.1
delivered_err (err d, y) e x h = cc
delivered_err (ok none, y) e x h = cc
delivered_err (ok (some a), y) e x h = cc

abbrev inv : Invoke Shipping ShopError ReserveRequest ReserveResponse
inv full_method req x = reached (serve_reserve ShopError tally req x)

inv-Carries : Carries inv reserve_full_method (serve_reserve ShopError tally)
inv-Carries = record {
  delivers = λ req x x' resp. delivered_ok (serve_reserve ShopError tally (some req) x) resp x';
  fails =
      λ req x x' e sent. inr (delivered_err (serve_reserve ShopError tally (some req) x) e x' sent);
}

-- The answers to the large charges are lost.
abbrev is_large : Option ChargeRequest → Bool
is_large none = false
is_large (some r) = leb_ℤ (pos 100) r.amount_minor

abbrev answer_of :
    Bool
    → Result ShopError (Option ChargeResponse) × Shipping
    → Result ShopError ChargeResponse × Shipping
answer_of true r = (err unreachable, r.1)
answer_of false r = reached r

abbrev pay : Invoke Shipping ShopError ChargeRequest ChargeResponse
pay full_method req x = answer_of (is_large req) (serve_charge ShopError tally inv req x)

answer_ok :
    (lost : Bool) (r : Result ShopError (Option ChargeResponse) × Shipping) (resp : ChargeResponse)
    (x : Shipping)
    → answer_of lost r ≡ (ok resp, x)
    → r ≡ (ok (some resp), x)
answer_ok true r resp x h = cc
answer_ok false r resp x h = delivered_ok r resp x h

answer_err :
    (lost : Bool) (r : Result ShopError (Option ChargeResponse) × Shipping) (e : ShopError)
    (x : Shipping)
    → answer_of lost r ≡ (err e, x)
    → x ≡ r.1
answer_err true r e x h = cc
answer_err false r e x h = delivered_err r e x h

pay-Carries : Carries pay charge_full_method (serve_charge ShopError tally inv)
pay-Carries = record {
  delivers = λ req x x' resp.
      answer_ok (is_large (some req)) (serve_charge ShopError tally inv (some req) x) resp x';
  fails = λ req x x' e sent.
      inr (
        answer_err (is_large (some req)) (serve_charge ShopError tally inv (some req) x) e x' sent);
}

-- JetStream's log.
abbrev log : Shipping → List Msg
log x = x.jet

answer_jet :
    (lost : Bool) (r : Result ShopError (Option ChargeResponse) × Shipping)
    → (reply (answer_of lost r)).1.jet ≡ r.1.jet
answer_jet true r = refl
answer_jet false (err e, x) = refl
answer_jet false (ok none, x) = refl
answer_jet false (ok (some a), x) = refl

charge_jet :
    (req : Option ChargeRequest) (x : Shipping)
    → (serve_charge ShopError tally inv req x).1.jet ≡ x.jet
unfolding client_reserve client_call reserve
charge_jet req x =
    let (resp, answer, authorizes, outcome, id, state) =
      charge_lem (client_reserve inv) (draw ShopError tally) req x in
    ap (λ (v : Shipping). v.jet) state

pay_jet : (req : Option ChargeRequest) (x : Shipping) → (client_charge pay req x).1.jet ≡ x.jet
unfolding client_charge client_call
pay_jet req x =
    answer_jet (is_large req) (serve_charge ShopError tally inv req x) ∙ charge_jet req x

log-LogLaws : LogLaws (chained ShopError tally app pay) log
log-LogLaws = record {
  draws = λ w m stored. stored;
  pays = λ w m {req} stored. subst (Memᴰ m) (pay_jet req w) stored;
  stores = λ n w m. Memᴰ.cases_cons;
  confirms = λ n w done. Memᴰ.head refl;
}

abbrev rfc3339 : ℕ → String
rfc3339 t = "2024-01-01T00:00:00Z"

abbrev Shipped : Pipeline Shipping ShopError → Type 0
Shipped = Reach tally inv pay app log str_eq "orders.events.created" rfc3339 false empty

abbrev large_order : OrderRequest
large_order = record order { amount_minor = pos 100 }

abbrev two_orders : Pipeline Shipping ShopError
two_orders = record {
  orders = record {
    paused = false;
    world = empty;
    handlers = update (update (λ i. idle) 0 (entered large_order)) 1 (entered order);
  };
  authorized = [];
  mailed = [];
  attempted = [];
}

abbrev go : ℕ → Pipeline Shipping ShopError → Pipeline Shipping ShopError
go i p = worked (chained ShopError tally app pay) i p

going : (i : ℕ) (p : Pipeline Shipping ShopError) → Shipped p → Shipped (go i p)
going i p run = later run (both (work i) (inr (ordered (move i))))

-- Both draw their ids, both charge, and both go on to their answers; the event is delivered twice.
abbrev both_answered : Pipeline Shipping ShopError
both_answered = go 1 (go 1 (go 0 (go 1 (go 0 (go 1 (go 0 two_orders))))))

both_answered-Shipped : Shipped both_answered
both_answered-Shipped =
    let entering : Shipped two_orders =
      later
        (later start
          (both (arrive 0 large_order refl) (inr (ordered (arrived 0 large_order refl)))))
        (both (arrive 1 order refl) (inr (ordered (arrived 1 order refl)))) in
    going 1 _ (going 1 _ (going 0 _ (going 1 _ (going 0 _ (going 1 _ (going 0 _ entering))))))

abbrev message : Msg
message = event_msg app (tally 1) order empty

abbrev mailed_twice : Pipeline Shipping ShopError
mailed_twice = delivered rfc3339 message (delivered rfc3339 message both_answered)

mailed_twice-Shipped : Shipped mailed_twice
unfolding advance client_charge charge is_reserved client_reserve InventoryV1.get_status reserve
    get_status consumer_config
mailed_twice-Shipped =
    let stored : Memᴰ message (log both_answered.orders.world) = Memᴰ.head refl in
    later (later both_answered-Shipped (both (deliver message stored refl) (inl refl)))
      (both (deliver message stored refl) (inl refl))

Reach-fulfilled_example :
    (ids : ℕ → ℕ) × Owns tally ids mailed_twice.orders
    × ((evt : Incoming)
        → Memᴰ evt mailed_twice.mailed
        → (i : ℕ) × IsConfirmed (mailed_twice.orders.handlers i)
          × IsOrder (mailed_twice.orders.handlers i) evt.order_id)
Reach-fulfilled_example =
    Reach-fulfilled tally inv pay app log str_eq "orders.events.created" rfc3339 tally_fresh
      inv-Carries pay-Carries (λ m x. (refl, refl)) log-LogLaws refl mailed_twice-Shipped
