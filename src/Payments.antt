-- ===== src/Payments.antt =====
-- services/payments-svc/main.go: Charge. The simulated latency only takes time and is left out; the
-- payment's id is drawn by uuid.NewString, an argument of type `W → String × W` here.
pub mod Charges
use reliability_lab.Common.{
  String, List, [], ◌∷◌, Option, none, some, Bool, true, false, if◌then◌else◌, Result, ok, err,
}
use reliability_lab.Common.Int.{ℤ, pos, eq_ℤ}
use reliability_lab.Gen.Rpc.{Method}
use reliability_lab.Gen.InventoryV1
use reliability_lab.Gen.InventoryV1.{LineItem, ReserveRequest, ReserveResponse, reserve_ok}
use reliability_lab.Gen.PaymentsV1.{
  ChargeRequest, ChargeResponse, charge_authorized, charge_declined, get_order_id,
}

abbrev pub default_items : List LineItem
default_items = record { sku = "DEFAULT"; quantity = pos 1 } ∷ []

-- err != nil || resv.GetStatus() != STATUS_OK, negated.
unfoldable pub is_reserved : {E : Type 0} → Result E (Option ReserveResponse) → Bool
is_reserved (err e) = false
is_reserved (ok resv) = eq_ℤ (InventoryV1.get_status resv) reserve_ok

abbrev pub reserve_request : Option ChargeRequest → ReserveRequest
reserve_request req = record { order_id = get_order_id req; items = default_items }

module _ {W E : Type 0} where
  unfoldable pub charge :
      Method W E ReserveRequest ReserveResponse
      → (W → String × W)
      → Method W E ChargeRequest ChargeResponse
  charge inv new_string req w =
      let (resv, w1) = inv (some (reserve_request req)) w in
      let (id, w2) = new_string w1 in
      if is_reserved resv
      then (
        ok (some (record { payment_id = id; status = charge_authorized; decline_reason = "" })),
        w2,
      )
      else (
        ok (
            some (record {
              payment_id = id;
              status = charge_declined;
              decline_reason = "inventory unavailable";
            })),
        w2,
      )
