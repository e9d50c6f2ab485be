-- ===== src/Witnesses/Chain.antt =====
-- The order chain over connections that deliver, and over one that loses its answers.
use Prim.Native.String.{◌++◌ as ◌<>◌}
use reliability_lab.Common.{
  ◌≡◌, refl, String, List, [], ◌∷◌, str_eq, if◌then◌else◌, Option, none, some, false, Result, ok,
  err,
}
use reliability_lab.Common.Dict.{insert}
use reliability_lab.Gen.Rpc.{Invoke, reply, client_call}
use reliability_lab.Gen.InventoryV1
use reliability_lab.Gen.InventoryV1.{
  ReserveRequest, ReserveResponse, reserve_full_method, client_reserve, ReleaseRequest,
  ReleaseResponse,
}
use reliability_lab.Gen.PaymentsV1.{
  ChargeRequest, ChargeResponse, client_charge, get_status, get_payment_id,
}
use reliability_lab.Inventory.{reserve}
use reliability_lab.Payments.{charge, is_reserved, default_items}
use reliability_lab.Orders.Create.{App, Msg, created, status_of, handle_create, charged, authorized}
use reliability_lab.System.OrderChain.{
  Net, serve_reserve, serve_charge, chained, handle_create-leaks,
}
use reliability_lab.Gen.Wire.{
  MethodDesc, ServiceDesc, Transport, invoke_over, method_handler, inventory_desc, payments_desc,
}
use reliability_lab.Gen.Rpc.{serve_call}
use reliability_lab.System.WiredChain.{
  Codecs, ReadBack, InventoryServes, PaymentsServes, inventory_conn, payments_conn, serve_release,
  handle_create-over_wires,
}
use reliability_lab.Witnesses.Shop.{ShopError, unreachable, id_of, order}

-- JetStream keeps what is published.
abbrev pub Shipping : Type 0
Shipping = Net (List Msg)

-- A connection that delivers.
abbrev pub delivered :
    {Resp : Type 0} → Result ShopError (Option Resp) × Shipping → Result ShopError Resp × Shipping
delivered (err e, x) = (err e, x)
delivered (ok none, x) = (err unreachable, x)
delivered (ok (some resp), x) = (ok resp, x)

abbrev inv : Invoke Shipping ShopError ReserveRequest ReserveResponse
inv full_method req x = delivered (serve_reserve ShopError id_of req x)

abbrev pub app : App Shipping ShopError
app = record {
  pay = λ req x. (err unreachable, x);
  new_string = λ x. ("", x);
  now = λ x. 7;
  inject = λ x. [];
  publish_msg = λ m x. (none, record x { jet = m ∷ x.jet });
  subject = "orders.events.created";
  publishing_paused = false;
}

abbrev pub empty : Shipping
empty = record { store = []; drawn = 0; jet = [] }

-- A connection that loses every answer.
abbrev lossy : Invoke Shipping ShopError ChargeRequest ChargeResponse
lossy full_method req x = (err unreachable, (serve_charge ShopError id_of inv req x).1)

inv_works :
    (r : ReserveRequest) (v : Shipping)
    → reply (inv reserve_full_method (some r) v) ≡ serve_reserve ShopError id_of (some r) v
unfolding reserve
inv_works r v = refl

handle_create-leaks_example :
    let (response, x') = handle_create (chained ShopError id_of app lossy) (some order) empty in
    (status_of response ≡ 502) × (x'.store ≡ insert (id_of 1) default_items [])
handle_create-leaks_example =
    handle_create-leaks id_of inv lossy app unreachable inv_works (λ r v. refl) order empty

-- The messages on a wire, and codecs that keep them.
data Wire : Type 0 where
  wire_reserve : ReserveRequest → Wire
  wire_reserved : ReserveResponse → Wire
  wire_release : ReleaseRequest → Wire
  wire_released : ReleaseResponse → Wire
  wire_charge : ChargeRequest → Wire
  wire_charged : ChargeResponse → Wire
  wire_nil : Wire

abbrev put : {A : Type 0} → (A → Wire) → Option A → Wire
put wire none = wire_nil
put wire (some a) = wire a

abbrev reserve_in : Wire → Result ShopError ReserveRequest
reserve_in (wire_reserve a) = ok a
reserve_in _ = err unreachable

abbrev reserved_in : Wire → Result ShopError ReserveResponse
reserved_in (wire_reserved a) = ok a
reserved_in _ = err unreachable

abbrev release_in : Wire → Result ShopError ReleaseRequest
release_in (wire_release a) = ok a
release_in _ = err unreachable

abbrev released_in : Wire → Result ShopError ReleaseResponse
released_in (wire_released a) = ok a
released_in _ = err unreachable

abbrev charge_in : Wire → Result ShopError ChargeRequest
charge_in (wire_charge a) = ok a
charge_in _ = err unreachable

abbrev charged_in : Wire → Result ShopError ChargeResponse
charged_in (wire_charged a) = ok a
charged_in _ = err unreachable

abbrev codecs : Codecs Wire ShopError
codecs = record {
  reserve_req = record { marshal = put wire_reserve; unmarshal = reserve_in };
  reserve_resp = record { marshal = put wire_reserved; unmarshal = reserved_in };
  release_req = record { marshal = put wire_release; unmarshal = release_in };
  release_resp = record { marshal = put wire_released; unmarshal = released_in };
  charge_req = record { marshal = put wire_charge; unmarshal = charge_in };
  charge_resp = record { marshal = put wire_charged; unmarshal = charged_in };
}

codecs-ReadBack : ReadBack codecs
codecs-ReadBack = ((λ a. refl), (λ a. refl), (λ a. refl), (λ a. refl))

-- A server of one description.
abbrev routed :
    List (MethodDesc Wire Shipping ShopError) → String → Transport Wire Shipping ShopError
routed [] service full_method wire x = (err unreachable, x)
routed (m ∷ ms) service full_method wire x =
    if str_eq full_method ("/" <> (service <> ("/" <> m.method_name)))
    then m.handler wire x
    else routed ms service full_method wire x

abbrev served : ServiceDesc Wire Shipping ShopError → Transport Wire Shipping ShopError
served desc = routed desc.methods desc.service_name

abbrev to_inventory : Transport Wire Shipping ShopError
to_inventory = served (
    inventory_desc codecs.reserve_req codecs.reserve_resp codecs.release_req codecs.release_resp
      (serve_reserve ShopError id_of) serve_release)

abbrev to_payments : Transport Wire Shipping ShopError
to_payments = served (
    payments_desc codecs.charge_req codecs.charge_resp
      (serve_charge ShopError id_of (inventory_conn id_of codecs to_inventory to_inventory)))

to_inventory-Serves : InventoryServes id_of codecs to_inventory to_payments
unfolding inventory_desc
to_inventory-Serves = ((λ wire out x x' h. h), ((λ wire out x x' h. h), tt))

to_payments-Serves : PaymentsServes id_of codecs to_inventory to_payments
unfolding payments_desc
to_payments-Serves = ((λ wire out x x' h. h), tt)

wired_created :
    (handle_create
      (chained ShopError id_of app (payments_conn id_of codecs to_inventory to_payments))
      (some order)
      empty).0
    ≡ created "id-0" "id-n"
unfolding handle_create charged authorized get_status get_payment_id client_charge client_call
    charge client_reserve reserve is_reserved InventoryV1.get_status invoke_over method_handler
    inventory_desc payments_desc serve_call
wired_created = refl

handle_create-over_wires_example :
    ("id-0" ≡ id_of 0)
    × ((handle_create
          (chained ShopError id_of app (payments_conn id_of codecs to_inventory to_payments))
          (some order)
          empty).1.store
        ≡ insert (id_of 1) default_items [])
handle_create-over_wires_example =
    handle_create-over_wires id_of codecs to_inventory to_payments app codecs-ReadBack
      to_inventory-Serves to_payments-Serves (λ m v. refl) order empty wired_created
