-- ===== src/Services/Startup.antt =====
-- The main functions of services/*/main.go: which calls end the process with exit code 1, and what
-- they do to the Health that /readyz shows. The errors of the libraries are arguments.
use reliability_lab.Common.{
  ℕ, String, List, [], ◌∷◌, ◌++◌, Bool-cases, Option, none, some, Bool, true, not, ◌≡◌, refl, ◌↔◌,
  ◌⊎◌, inl, inr, arith, str_eq, if◌then◌else◌,
}
use reliability_lab.Http.{Mux}
use reliability_lab.Orders.Routes.{orders_mux, orders_mux-eq-none}
use reliability_lab.Obs.Health.{
  Op, set_ready, set_not_ready, new_health, apply_op, run_ops, readyz, Page,
}

-- envOr, which each service has: the variable's value, or the default where it is unset or empty.
unfoldable pub env_or : String → String → String
env_or v def = if not (str_eq v "") then v else def

-- The functions that the mains defer: the stop of signal.NotifyContext, the shutdown of tracing, the
-- closing of the gRPC connection, NATS's Drain and the stop of the consumer.
pub data Deferred : Type 0 where
  stop_signals shut_down_tracing close_conn drain_nats stop_consumer : Deferred

-- How a process ends: its operations on the Health, in order, its exit code, and the deferred
-- functions that it has run, in order.
pub record Run : Type 0 where
  pub ops : List Op
  pub exit : ℕ
  pub deferred : List Deferred

-- os.Exit(1), which runs no deferred function.
abbrev pub exit_1 : List Op → Run
exit_1 ops = record { ops = ops; exit = 1; deferred = [] }

-- A call of main that may fail, and what main defers once it has succeeded.
abbrev pub Call : Type 0 → Type 0
Call E = Option E × List Deferred

-- The first call that fails ends the process; otherwise it goes on with what is deferred, latest
-- first.
abbrev pub require_all : {E : Type 0} → List (Call E) → (List Deferred → Run) → List Deferred → Run
require_all [] k deferred = k deferred
require_all ((none, later) ∷ calls) k deferred = require_all calls k (later ++ deferred)
require_all ((some e, later) ∷ calls) k deferred = exit_1 []

-- Ready is set by a goroutine, beside main, which sets NotReady when the context is done: the two
-- come in the order that the scheduler chooses.
abbrev pub served : Bool → List Op
served ready_first =
    if ready_first then set_ready ∷ set_not_ready ∷ [] else set_not_ready ∷ set_ready ∷ []

-- The end of main after the context is done.
abbrev pub served_end : Bool → List Deferred → Run
served_end ready_first deferred = record { ops = served ready_first; exit = 0; deferred = deferred }

-- A panic of a registration runs what is deferred, and ends the process with code 2.
abbrev pub registered : {H : Type 0} → Option (Mux H) → Run → List Deferred → Run
registered none k deferred = record { ops = []; exit = 2; deferred = deferred }
registered (some mux) k deferred = k

module _ {E : Type 0} where
  -- obs.InitTracing, and the deferred call of the shutdown that it returns.
  abbrev traced : Option E → Call E
  traced tracing = (tracing, shut_down_tracing ∷ [])

  -- orders-svc from its call of Ready on: the end of main after `serve`, the result of obs.Serve.
  abbrev orders_end : (E → Bool) → Option E → List Deferred → Run
  orders_end is_canceled none deferred = record {
    ops = set_ready ∷ [];
    exit = 0;
    deferred = deferred;
  }
  orders_end is_canceled (some e) deferred =
      if not (is_canceled e)
      then exit_1 (set_ready ∷ [])
      else record { ops = set_ready ∷ []; exit = 0; deferred = deferred }

  unfoldable pub orders_serve : (E → Bool) → (serve : Option E) → List Deferred → Run
  orders_serve is_canceled serve deferred = orders_end is_canceled serve deferred

  -- orders-svc: tracing, the dial of payments, NATS and JetStream, the routes, then the HTTP server.
  unfoldable pub orders_main :
      (tracing dial nats jetstream : Option E) → (E → Bool) → (serve : Option E) → Run
  unfolding orders_serve
  orders_main tracing dial nats jetstream is_canceled serve =
      require_all
        (traced tracing ∷ (dial, close_conn ∷ []) ∷ (nats, drain_nats ∷ []) ∷ (jetstream, []) ∷ [])
        (λ deferred. registered orders_mux (orders_serve is_canceled serve deferred) deferred)
        (stop_signals ∷ [])

  -- payments-svc: tracing, the dial of inventory and the listener, then the servers.
  unfoldable pub payments_main : (tracing dial listen : Option E) → Bool → Run
  payments_main tracing dial listen ready_first =
      require_all (traced tracing ∷ (dial, close_conn ∷ []) ∷ (listen, []) ∷ [])
        (served_end ready_first) (stop_signals ∷ [])

  -- inventory-svc: tracing and the listener, then the servers.
  unfoldable pub inventory_main : (tracing listen : Option E) → Bool → Run
  inventory_main tracing listen ready_first =
      require_all (traced tracing ∷ (listen, []) ∷ []) (served_end ready_first) (stop_signals ∷ [])

  abbrev consumed : Option E → List Deferred → Run
  consumed none deferred = record {
    ops = set_ready ∷ set_not_ready ∷ [];
    exit = 0;
    deferred = stop_consumer ∷ deferred;
  }
  consumed (some e) deferred = exit_1 (set_ready ∷ [])

  -- email-worker: tracing, NATS, JetStream, the stream and the consumer; Ready; then the consume.
  unfoldable pub email_main : (tracing nats jetstream stream consumer consume : Option E) → Run
  email_main tracing nats jetstream stream consumer consume =
      require_all
        (traced tracing
          ∷ (nats, drain_nats ∷ [])
          ∷ (jetstream, [])
          ∷ (stream, [])
          ∷ (consumer, [])
          ∷ [])
        (consumed consume) (stop_signals ∷ [])

-- What /readyz answers when the process is about to end.
abbrev pub last_page : Run → Page
last_page r = readyz (run_ops r.ops new_health)

-- Whatever the libraries return, the main of orders-svc ends before its call of Ready: with code 1
-- where tracing, the dial, NATS or JetStream fails, and with the code 2 of a panic where all of them
-- succeed.
pub orders_main-panics :
    {E : Type 0} (tracing dial nats jetstream : Option E) (is_canceled : E → Bool)
    (serve : Option E)
    → let run = orders_main tracing dial nats jetstream is_canceled serve in
      (run.ops ≡ [])
      × ((run.exit ≡ 2) ↔ ((tracing ≡ none) × (dial ≡ none) × (nats ≡ none) × (jetstream ≡ none)))
      × ((run.exit ≡ 1) ⊎ (run.exit ≡ 2))
unfolding orders_main
orders_main-panics (some e) dial nats jetstream is_canceled serve = ground arith
orders_main-panics none (some e) nats jetstream is_canceled serve = ground arith
orders_main-panics none none (some e) jetstream is_canceled serve = ground arith
orders_main-panics none none none (some e) is_canceled serve = ground arith
orders_main-panics none none none none is_canceled serve = rw orders_mux-eq-none (ground arith)

-- When a service has been told to stop and shuts down cleanly, /readyz of payments-svc and
-- inventory-svc, whose Ready came before NotReady, and of the email-worker answers 503, but after
-- the part of orders-svc's main from Ready on it still answers 200.
pub shutdown_pages :
    {E : Type 0} (is_canceled : E → Bool) (serve : Option E) (deferred : List Deferred)
    → ((last_page (payments_main {E = E} none none none true)).status ≡ 503)
      × ((last_page (inventory_main {E = E} none none true)).status ≡ 503)
      × ((last_page (email_main {E = E} none none none none none none)).status ≡ 503)
      × ((last_page (orders_serve is_canceled serve deferred)).status ≡ 200)
unfolding payments_main inventory_main email_main orders_serve readyz run_ops apply_op new_health
shutdown_pages is_canceled none deferred = (refl, refl, refl, refl)
shutdown_pages is_canceled (some e) deferred =
    (refl, refl, refl, elim (Bool-cases (is_canceled e)) [ inl c ↦ rw c refl | inr c ↦ rw c refl ])
