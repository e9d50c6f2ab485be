-- ===== src/Orders/Create/Counted.antt =====
-- services/orders-svc/main.go: POST /orders as main serves it, handleCreate inside the RED
-- middleware; what it does to the ResponseWriter.
use reliability_lab.Common.{ℕ, ◌-◌, ◌≡◌, refl, String, List, [], ◌∷◌, Option}
use reliability_lab.Obs.RedMetrics.{
  WriterCall, write_header, write, recorder_write_header, call, calls, fresh, MetricLabels,
  HttpMetrics, Writer, HeaderFirst, wrap, wrap-sent,
}
use reliability_lab.Orders.Create.{
  OrderRequest, Response, invalid_json, payments_unavailable, declined, created, status_of, App,
  handle_create,
}

-- http.Error writes the header and the text; the JSON encoder writes the object in one Write.
abbrev pub writes : Response → List WriterCall
writes invalid_json = write_header 400 ∷ write ∷ []
writes payments_unavailable = write_header 502 ∷ write ∷ []
writes (declined reason) = write_header 402 ∷ write ∷ []
writes (created order_id payment_id) = write ∷ []

module _ {W E : Type 0} where
  -- The handler of POST /orders, from `start` to `stop` on the clock.
  unfoldable pub post_orders :
      App W E
      → HttpMetrics
      → String
      → Option OrderRequest
      → ℕ
      → ℕ
      → W
      → Response × HttpMetrics × Writer × W
  post_orders a m method req start stop w =
      let (response, w') = handle_create a req w in
      let (m', writer) = wrap m "post_orders" method (writes response) start stop in
      (response, m', writer, w')

writes-HeaderFirst : (r : Response) → HeaderFirst (writes r)
writes-HeaderFirst invalid_json = refl
writes-HeaderFirst payments_unavailable = refl
writes-HeaderFirst (declined reason) = refl
writes-HeaderFirst (created order_id payment_id) = tt

sent-status_of :
    (m : HttpMetrics) (method : String) (start stop : ℕ) (r : Response)
    → (wrap m "post_orders" method (writes r) start stop).1.net.sent ≡ status_of r
unfolding wrap calls call recorder_write_header fresh status_of
sent-status_of m method start stop invalid_json = refl
sent-status_of m method start stop payments_unavailable = refl
sent-status_of m method start stop (declined reason) = refl
sent-status_of m method start stop (created order_id payment_id) = refl

-- Every POST of an order, also one that does not decode, is answered with the status of its
-- response, and adds one request and one duration to the metrics, both under the handler
-- post_orders, the request's method and that status.
pub post_orders-counted :
    {W E : Type 0} (a : App W E) (m : HttpMetrics) (method : String) (req : Option OrderRequest)
    (start stop : ℕ) (w : W)
    → let (response, m', writer, w') = post_orders a m method req start stop w in
      let labels : MetricLabels = record {
        handler = "post_orders";
        method = method;
        code = status_of response;
      } in
      (writer.net.sent ≡ status_of response)
      × (m'.requests ≡ labels ∷ m.requests)
      × (m'.duration ≡ (labels, stop - start) ∷ m.duration)
unfolding post_orders
post_orders-counted a m method req start stop w =
    let r = (handle_create a req w).0 in
    let sent = sent-status_of m method start stop r in
    let counted = wrap-sent m "post_orders" method (writes r) start stop (writes-HeaderFirst r) in
    (sent, rw sent at counted.0, rw sent at counted.1)
