-- ===== src/Witnesses/Bodies.antt =====
-- Request bodies and message data as JSON values, at which the handlers run from the body on.
use reliability_lab.Common.{
  ℕ, ◌≡◌, refl, ◌↔◌, String, Option, some, Bool, false, not, str_eq, if◌then◌else◌,
}
use reliability_lab.Common.Int.{pos}
use reliability_lab.Json.{Value, text, integer, object, array, cons, nil, member, end, null}
use reliability_lab.Orders.Create.{invalid_json, handle_create}
use reliability_lab.Orders.Create.Outcomes.{payment}
use reliability_lab.Orders.Create.Body.{create_body, is_order, create_body-refused}
use reliability_lab.Server.Body.{handle_body, is_payload, handle_body-answered}
use reliability_lab.Services.Email.{Settled, counting, logged_ack}
use reliability_lab.System.Events.{encode_event, decode_incoming, handle_data, created-acked}
use reliability_lab.Orders.Create.{Msg}
use reliability_lab.Witnesses.Fixtures.{start_world}
use reliability_lab.Witnesses.Pages.{op}
use reliability_lab.Witnesses.Shop.{unreachable, shop, open_shop, order}
use reliability_lab.Witnesses.Clients.{order_created}

-- A quantity that an int32 does not hold.
abbrev too_many : Option Value
too_many =
    some
      (object (member "Customer_ID" (text "c") (member "quantity" (integer (pos 2147483648)) end)))

create_body-refused_example :
    (((create_body shop too_many open_shop).0 ≡ invalid_json) ↔ (is_order too_many ≡ false))
    × (is_order too_many ≡ false → (create_body shop too_many open_shop).1 ≡ open_shop)
create_body-refused_example = create_body-refused shop too_many open_shop

abbrev is_time : String → Bool
is_time s = not (str_eq s "")

-- A webhook with an alert whose start is no time.
abbrev bad_start : Option Value
bad_start = some (
    object (
      member "alerts"
        (array (cons (object (member "startsAt" (text "") (member "unknown" null end))) nil)) end))

handle_body-answered_example :
    let (response, s', w') = handle_body is_time op bad_start 5 start_world in
    (response.status ≡ (if is_payload is_time bad_start then 202 else 400))
    × (is_payload is_time bad_start ≡ false → s' ≡ op)
    × (is_payload is_time bad_start ≡ false → w' ≡ start_world)
handle_body-answered_example = handle_body-answered is_time op 5 start_world bad_start

abbrev rfc3339 : ℕ → String
rfc3339 t = "2024-01-01T00:00:00Z"

abbrev unsettled : Settled
unsettled = record { acks = 3; terms = 1 }

created-acked_example :
    (m : Msg) × ((handle_create shop (some order) open_shop).1
      ≡ (shop.publish_msg m (payment shop open_shop order).1).1)
    × (m.subject ≡ "orders.events.created")
    × (decode_incoming (encode_event rfc3339 m.payload)
        ≡ some (record { order_id = "id-0"; customer_email = "c@example.org" }))
    × (handle_data
          (counting (λ w. some unreachable) (λ e. false))
          (some (encode_event rfc3339 m.payload))
          unsettled
        ≡ (logged_ack (λ e. false) (some unreachable), record { acks = 4; terms = 1 }))
created-acked_example =
    created-acked shop rfc3339 (counting (λ w. some unreachable) (λ e. false)) unsettled order
      open_shop refl order_created
