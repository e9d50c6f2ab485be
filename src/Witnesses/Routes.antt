-- ===== src/Witnesses/Routes.antt =====
-- The routes of the servers, and the mains, at concrete requests.
use reliability_lab.Common.{true, ◌-◌, ◌≡◌, ◌↔◌, ◌⊎◌, [], ◌∷◌, Option, none, some, false}
use reliability_lab.Server.Lifecycle.{Request, serve_request}
use reliability_lab.Server.Lifecycle.Answers.{answer, serve_request-answer}
use reliability_lab.Obs.RedMetrics.{MetricLabels, HttpMetrics}
use reliability_lab.Orders.Create.{status_of}
use reliability_lab.Orders.Create.Counted.{post_orders, post_orders-counted}
use reliability_lab.Services.Cleanup.{EndsClean, mains-EndsClean}
use reliability_lab.Services.Startup.{
  payments_main, inventory_main, email_main, stop_signals, shut_down_tracing, close_conn,
  drain_nats, stop_consumer, orders_main, orders_main-panics,
}
use reliability_lab.Witnesses.Fixtures.{start_world}
use reliability_lab.Witnesses.Pages.{email_payload, op}
use reliability_lab.Witnesses.Shop.{ShopError, unreachable, shop, open_shop, order}

abbrev webhook : Request
webhook = record { method = "POST"; path = "/alerts"; body = some email_payload }

serve_request-answer_example :
    serve_request op webhook 5 start_world ≡ some (answer op webhook 5 start_world)
serve_request-answer_example = serve_request-answer op webhook 5 start_world

orders_main-panics_example :
    let nil : Option ShopError = none in
    let run = orders_main nil nil nil nil (λ e. false) (some unreachable) in
    (run.ops ≡ [])
    × ((run.exit ≡ 2) ↔ ((nil ≡ none) × (nil ≡ none) × (nil ≡ none) × (nil ≡ none)))
    × ((run.exit ≡ 1) ⊎ (run.exit ≡ 2))
orders_main-panics_example =
    orders_main-panics {E = ShopError} none none none none (λ e. false) (some unreachable)

abbrev no_metrics : HttpMetrics
no_metrics = record { requests = []; duration = [] }

post_orders-counted_example :
    let (response, m', writer, w') =
      post_orders shop no_metrics "POST" (some order) 3 8 open_shop in
    let labels : MetricLabels = record {
      handler = "post_orders";
      method = "POST";
      code = status_of response;
    } in
    (writer.net.sent ≡ status_of response)
    × (m'.requests ≡ labels ∷ [])
    × (m'.duration ≡ (labels, 8 - 3) ∷ [])
post_orders-counted_example = post_orders-counted shop no_metrics "POST" (some order) 3 8 open_shop

-- JetStream refuses the consumer.
mains-EndsClean_example :
    let nil : Option ShopError = none in
    EndsClean
      (nil ∷ nil ∷ nil ∷ [])
      (close_conn ∷ shut_down_tracing ∷ stop_signals ∷ [])
      (payments_main nil nil nil true)
    × EndsClean
        (nil ∷ nil ∷ [])
        (shut_down_tracing ∷ stop_signals ∷ [])
        (inventory_main nil nil true)
    × EndsClean
        (nil ∷ nil ∷ nil ∷ nil ∷ some unreachable ∷ nil ∷ [])
        (stop_consumer ∷ drain_nats ∷ shut_down_tracing ∷ stop_signals ∷ [])
        (email_main nil nil nil nil (some unreachable) nil)
mains-EndsClean_example =
    mains-EndsClean {E = ShopError} none none none none none none (some unreachable) none true
