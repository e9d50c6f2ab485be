-- ===== src/System/WiredChain.antt =====
-- The order chain over connections that carry encoded messages: the stubs of gen/go at both ends,
-- with the codecs and grpc-go's transports as arguments.
use reliability_lab.Common.{ℕ, ◌+◌, ◌≡◌, String, some, ok, Bool-cases, inl, inr}
use reliability_lab.Common.Dict.{insert}
use reliability_lab.Gen.Rpc.{Method, Invoke}
use reliability_lab.Gen.InventoryV1.{
  ReserveRequest, ReserveResponse, ReleaseRequest, ReleaseResponse, reserve_full_method,
  client_reserve,
}
use reliability_lab.Gen.PaymentsV1.{ChargeRequest, ChargeResponse, charge_full_method}
use reliability_lab.Gen.Wire.{
  Codec, ReadsBack, Transport, Routes, NeverNil, invoke_over, invoke_over-served, inventory_desc,
  payments_desc,
}
use reliability_lab.Inventory.{release}
use reliability_lab.Payments.{charge, default_items, is_reserved, reserve_request}
use reliability_lab.Orders.Create.{App, OrderRequest, Msg, created, handle_create}
use reliability_lab.System.OrderChain.{
  Net, Delivers, serve_reserve, serve_charge, chained, handle_create-reserves,
}

-- inventory-svc: Release.
abbrev pub serve_release : {J E : Type 0} → Method (Net J) E ReleaseRequest ReleaseResponse
serve_release req x =
    let (resp, store) = release req x.store in (ok (some resp), record x { store = store })

serve_reserve-NeverNil :
    (J E : Type 0) (uuid : ℕ → String) → NeverNil (serve_reserve {J = J} E uuid)
serve_reserve-NeverNil J E uuid req x x' nil = cc

serve_charge-NeverNil :
    {J E : Type 0} (uuid : ℕ → String) (inv : Invoke (Net J) E ReserveRequest ReserveResponse)
    → NeverNil (serve_charge E uuid inv)
unfolding charge
serve_charge-NeverNil {E = E} uuid inv req x x' nil =
    elim (Bool-cases (is_reserved (client_reserve inv (some (reserve_request (some req))) x).0)) [
      | inl e ↦ cc
      | inr e ↦ cc
    ]

-- The codecs of the message types.
pub record Codecs (Wire E : Type 0) : Type 0 where
  pub reserve_req : Codec Wire E ReserveRequest
  pub reserve_resp : Codec Wire E ReserveResponse
  pub release_req : Codec Wire E ReleaseRequest
  pub release_resp : Codec Wire E ReleaseResponse
  pub charge_req : Codec Wire E ChargeRequest
  pub charge_resp : Codec Wire E ChargeResponse

-- What the chain needs of them: its four messages are read back.
abbrev pub ReadBack : {Wire E : Type 0} → Codecs Wire E → Type 0
ReadBack c =
    ReadsBack c.reserve_req
    × ReadsBack c.reserve_resp
    × ReadsBack c.charge_req
    × ReadsBack c.charge_resp

module _ {J Wire E : Type 0} (uuid : ℕ → String) (codecs : Codecs Wire E)
    (to_inventory to_payments : Transport Wire (Net J) E) where
  -- payments-svc's connection to inventory-svc, and orders-svc's to payments-svc.
  abbrev pub inventory_conn : Invoke (Net J) E ReserveRequest ReserveResponse
  inventory_conn = invoke_over to_inventory codecs.reserve_req codecs.reserve_resp

  abbrev pub payments_conn : Invoke (Net J) E ChargeRequest ChargeResponse
  payments_conn = invoke_over to_payments codecs.charge_req codecs.charge_resp

  -- inventory-svc has registered its service with grpc-go, and payments-svc its own.
  abbrev pub InventoryServes : Type 0
  InventoryServes = Routes to_inventory (
      inventory_desc codecs.reserve_req codecs.reserve_resp codecs.release_req codecs.release_resp
        (serve_reserve E uuid) serve_release)

  abbrev pub PaymentsServes : Type 0
  PaymentsServes =
      Routes to_payments
        (payments_desc codecs.charge_req codecs.charge_resp (serve_charge E uuid inventory_conn))

  inventory_conn-Delivers :
      ReadBack codecs
      → InventoryServes
      → Delivers inventory_conn reserve_full_method (serve_reserve E uuid)
  unfolding inventory_desc
  inventory_conn-Delivers back served =
      invoke_over-served codecs.reserve_req codecs.reserve_resp back.0 back.1 (serve_reserve E uuid)
        (serve_reserve-NeverNil J E uuid) to_inventory reserve_full_method served.0

  payments_conn-Delivers :
      ReadBack codecs
      → PaymentsServes
      → Delivers payments_conn charge_full_method (serve_charge E uuid inventory_conn)
  unfolding payments_desc
  payments_conn-Delivers back served =
      invoke_over-served codecs.charge_req codecs.charge_resp back.2 back.3
        (serve_charge E uuid inventory_conn) (serve_charge-NeverNil uuid inventory_conn) to_payments
        charge_full_method served.0

  -- Where inventory-svc and payments-svc are registered under the descriptions of gen/go, every
  -- message that the chain sends is read back from its encoding, and JetStream leaves the inventory
  -- alone: an order that is answered as created has the first id that was drawn, and has reserved
  -- one DEFAULT item, once, under the second; no other reservation has changed.
  pub handle_create-over_wires :
      (app : App (Net J) E)
      → ReadBack codecs
      → InventoryServes
      → PaymentsServes
      → ((m : Msg) (v : Net J) → (app.publish_msg m v).1.store ≡ v.store)
      → (req : OrderRequest) (x : Net J) {id pid : String}
      → (handle_create (chained E uuid app payments_conn) (some req) x).0 ≡ created id pid
      → (id ≡ uuid x.drawn)
        × ((handle_create (chained E uuid app payments_conn) (some req) x).1.store
            ≡ insert (uuid (x.drawn + 1)) default_items x.store)
  handle_create-over_wires app back inventory payments keeps req x =
      handle_create-reserves uuid inventory_conn payments_conn app
        (inventory_conn-Delivers back inventory) (payments_conn-Delivers back payments) keeps req x
