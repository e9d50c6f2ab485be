-- ===== src/Witnesses/Mailing.antt =====
-- The shop whose published messages are the log that email-worker is given.
use mathlib.Core.List.{Memᴰ}
use mathlib.Core.List.Memᴰ
use reliability_lab.Common.{
  ℕ, ◌≡◌, refl, String, List, [], ◌∷◌, Option, some, true, false, str_eq, eq_refl, update,
}
use reliability_lab.Gen.PaymentsV1.{ChargeResponse, charge_authorized, get_status}
use reliability_lab.Json.{is_key, into_text}
use reliability_lab.Orders.Create.{Msg, event_msg}
use reliability_lab.Orders.Concurrent.{Orders, idle, entered, publishing, advance, decided}
use reliability_lab.Services.Email.{Incoming, consumer_config}
use reliability_lab.System.Events.{encode_event, decode_incoming}
use reliability_lab.System.Mailing.{
  Pipeline, LogLaws, worked, delivered, Step, Reach, start, later, arrive, work, deliver,
}
use reliability_lab.System.Mailing.Mailed.{Reach-mailed, worked-mailed, configured, worker_subject}
use reliability_lab.Witnesses.Shop.{Shop, ShopError, shop, open_shop, order}

abbrev pub log : Shop → List Msg
log x = x.published

abbrev rfc3339 : ℕ → String
rfc3339 t = "2024-01-01T00:00:00Z"

pub log-LogLaws : (subject : String) → LogLaws (record shop { subject = subject }) log
log-LogLaws subject = record {
  draws = λ w m stored. stored;
  pays = λ w m stored. stored;
  stores = λ n w m. Memᴰ.cases_cons;
  confirms = λ n w done. Memᴰ.head refl;
}

abbrev paid : Option ChargeResponse
paid = some (record { payment_id = "p"; status = charge_authorized; decline_reason = "" })

-- A handler that has loaded the flag and is about to publish.
abbrev pub ready : Orders Shop ShopError
ready = record {
  paused = true;
  world = open_shop;
  handlers = update (λ i. idle) 0 (publishing "id-0" order paid);
}

abbrev event : Incoming
event = record { order_id = "id-0"; customer_email = "c@example.org" }

abbrev no_env : String → String
no_env name = ""

abbrev opened : Pipeline Shop ShopError
opened = record { orders = ready; authorized = event ∷ []; mailed = []; attempted = [] }

worked-mailed_example :
    (t : Pipeline Shop ShopError) × Step
      (configured no_env "" shop)
      log
      str_eq
      (worker_subject no_env "")
      rfc3339
      (worked (configured no_env "" shop) 0 opened)
      t
    × (t.orders ≡ (worked (configured no_env "" shop) 0 opened).orders)
    × (t.mailed ≡ event ∷ [])
worked-mailed_example =
    worked-mailed shop log str_eq rfc3339 no_env no_env "" (log-LogLaws _) refl (eq_refl _) opened 0
      "id-0" order paid refl refl

-- An order from its arrival to its publish, whose message is delivered twice.
abbrev pub message : Msg
message = event_msg shop "id-0" order open_shop

abbrev arrived : Pipeline Shop ShopError
arrived = record {
  orders = record {
    paused = false;
    world = open_shop;
    handlers = update (λ i. idle) 0 (entered order);
  };
  authorized = [];
  mailed = [];
  attempted = [];
}

abbrev published : Pipeline Shop ShopError
published = worked shop 0 (worked shop 0 (worked shop 0 (worked shop 0 arrived)))

abbrev mailed_twice : Pipeline Shop ShopError
mailed_twice = delivered rfc3339 message (delivered rfc3339 message published)

mailed_twice-Reach :
    Reach shop log str_eq "orders.events.created" rfc3339 false open_shop mailed_twice
unfolding advance decided get_status consumer_config
mailed_twice-Reach =
    let entering : Reach shop log str_eq "orders.events.created" rfc3339 false open_shop arrived =
      later start (arrive 0 order refl) in
    let publish : Reach shop log str_eq "orders.events.created" rfc3339 false open_shop published =
      later (later (later (later entering (work 0)) (work 0)) (work 0)) (work 0) in
    later (later publish (deliver message (Memᴰ.head refl) refl))
      (deliver message (Memᴰ.head refl) refl)

Reach-mailed_example : Memᴰ event mailed_twice.authorized
unfolding is_key into_text decode_incoming encode_event
Reach-mailed_example =
    Reach-mailed shop log str_eq "orders.events.created" rfc3339 (log-LogLaws _) refl
      mailed_twice-Reach event (Memᴰ.head refl)
