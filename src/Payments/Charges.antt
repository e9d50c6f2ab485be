-- ===== src/Payments/Charges.antt =====
-- What Charge answers, and what of the request it passes on.
use reliability_lab.Common.{
  ◌≡◌, refl, ◌↔◌, ◌⊎◌, inl, inr, Bool-cases, String, Option, some, true, false, arith, Result, ok,
  err,
}
use reliability_lab.Common.Int.{eq_ℤ_iff}
use reliability_lab.Gen.Rpc.{Method}
use reliability_lab.Gen.InventoryV1
use reliability_lab.Gen.InventoryV1.{ReserveRequest, ReserveResponse, reserve_ok}
use reliability_lab.Gen.PaymentsV1.{
  ChargeRequest, ChargeResponse, charge_authorized, charge_declined, get_order_id, get_status,
  get_decline_reason, get_payment_id,
}
use reliability_lab.Payments.{is_reserved, reserve_request, charge}

-- The inventory has answered, and has made the reservation.
abbrev pub IsReserved : {E : Type 0} → Result E (Option ReserveResponse) → Type 0
IsReserved (err e) = ⊥
IsReserved (ok resv) = InventoryV1.get_status resv ≡ reserve_ok

is_reserved_iff :
    {E : Type 0} (r : Result E (Option ReserveResponse)) → (is_reserved r ≡ true) ↔ IsReserved r
unfolding is_reserved
is_reserved_iff (err e) = ground arith
is_reserved_iff (ok resv) = eq_ℤ_iff (InventoryV1.get_status resv) reserve_ok

module _ {W E : Type 0} (inv : Method W E ReserveRequest ReserveResponse)
    (new_string : W → String × W) (req : Option ChargeRequest) (w : W) where
  -- The inventory's answer to the one Reserve call.
  abbrev pub reservation : Result E (Option ReserveResponse) × W
  reservation = inv (some (reserve_request req)) w

  -- Charge never returns an error. It authorizes exactly when its one Reserve call has made the
  -- reservation, and declines otherwise, with the reason "inventory unavailable"; the payment id is
  -- drawn in both cases.
  pub charge_lem :
      (resp : Option ChargeResponse) × ((charge inv new_string req w).0 ≡ ok resp)
      × ((get_status resp ≡ charge_authorized) ↔ IsReserved reservation.0)
      × ((get_status resp ≡ charge_authorized)
          ⊎ ((get_status resp ≡ charge_declined)
              × (get_decline_reason resp ≡ "inventory unavailable")))
      × (get_payment_id resp ≡ (new_string reservation.1).0)
      × ((charge inv new_string req w).1 ≡ (new_string reservation.1).1)
  unfolding charge get_status get_decline_reason get_payment_id
  charge_lem = elim (Bool-cases (is_reserved reservation.0)) [
    | inl e ↦ rw e (
      some (record { payment_id = id; status = charge_authorized; decline_reason = "" }),
      refl,
      (λ a. (is_reserved_iff reservation.0).0 e, λ r. refl),
      inl refl,
      refl,
      refl,
    )
    | inr e ↦ rw e (
      some (record {
        payment_id = id;
        status = charge_declined;
        decline_reason = "inventory unavailable";
      }),
      refl,
      (λ a. absurd (ground arith), λ r. absurd (unreserved e r)),
      inr (refl, refl),
      refl,
      refl,
    )
  ]
    where
      id : String
      id = (new_string reservation.1).0

      unreserved : is_reserved reservation.0 ≡ false → IsReserved reservation.0 → ⊥
      unreserved e r =
          let e' : is_reserved reservation.0 ≡ true = (is_reserved_iff reservation.0).1 r in cc

  -- Only the order id of a charge matters: the customer, the amount and the currency never do.
  pub charge-order_id :
      (req' : Option ChargeRequest)
      → get_order_id req ≡ get_order_id req'
      → charge inv new_string req w ≡ charge inv new_string req' w
  unfolding charge
  charge-order_id req' same = rw same
