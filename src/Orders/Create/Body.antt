-- ===== src/Orders/Create/Body.antt =====
-- services/orders-svc/main.go: POST /orders from the JSON value of its body on. A body that is not
-- the text of a value is `none`.
use reliability_lab.Common.{
  ◌≡◌, ◌≢◌, ◌↔◌, refl, String, [], ◌∷◌, Option, none, some, Bool, false, arith, if◌then◌else◌,
  Result, ok, err,
}
use reliability_lab.Common.Int.{pos}
use reliability_lab.Json.{
  Value, is_key, into_text, into_int, fits_int32, fits_int64, ◌>>=◌, into_struct,
}
use reliability_lab.Json.Schema.{
  Schema, is_text, is_int, is_struct, fields, member_fits, is_some, into_struct-is_struct,
}
use reliability_lab.Gen.PaymentsV1.{ChargeResponse}
use reliability_lab.Orders.Create.{
  OrderRequest, Response, invalid_json, App, charged, authorized, handle_create,
}

abbrev pub no_order : OrderRequest
no_order = record {
  customer_id = "";
  customer_email = "";
  amount_minor = pos 0;
  currency = "";
  sku = "";
  quantity = pos 0;
}

-- The tags of orderRequest.
unfoldable pub set_order : String → Value → OrderRequest → Option OrderRequest
set_order name v r =
    if is_key name "customer_id"
    then (into_text v r.customer_id >>= λ x. some (record r { customer_id = x }))
    else if is_key name "customer_email"
    then (into_text v r.customer_email >>= λ x. some (record r { customer_email = x }))
    else if is_key name "amount_minor"
    then (into_int fits_int64 v r.amount_minor >>= λ x. some (record r { amount_minor = x }))
    else if is_key name "currency"
    then (into_text v r.currency >>= λ x. some (record r { currency = x }))
    else if is_key name "sku"
    then (into_text v r.sku >>= λ x. some (record r { sku = x }))
    else if is_key name "quantity"
    then (into_int fits_int32 v r.quantity >>= λ x. some (record r { quantity = x }))
    else some r

unfoldable pub decode_order : Value → Option OrderRequest
unfolding set_order into_struct
decode_order v = into_struct set_order v no_order

-- The handler from the body on.
unfoldable pub create_body : {W E : Type 0} → App W E → Option Value → W → Response × W
unfolding decode_order
create_body a body w = handle_create a (body >>= decode_order) w

abbrev pub order_schema : Schema
order_schema =
    ("customer_id", is_text)
    ∷ ("customer_email", is_text)
    ∷ ("amount_minor", is_int fits_int64)
    ∷ ("currency", is_text)
    ∷ ("sku", is_text)
    ∷ ("quantity", is_int fits_int32)
    ∷ []

set_order-fits :
    (name : String) (v : Value) (r : OrderRequest)
    → is_some (set_order name v r) ≡ member_fits order_schema name v
unfolding set_order
set_order-fits name v r = search fields depth 9

decode_order-is_struct : (v : Value) → is_some (decode_order v) ≡ is_struct order_schema v
unfolding decode_order
decode_order-is_struct v = into_struct-is_struct set_order order_schema set_order-fits v no_order

-- A body that is a value whose members, where their names go with a tag, have its type and range.
abbrev pub is_order : Option Value → Bool
is_order none = false
is_order (some v) = is_struct order_schema v

body-is_order : (body : Option Value) → is_some (body >>= decode_order) ≡ is_order body
body-is_order none = refl
body-is_order (some v) = decode_order-is_struct v

module _ {W E : Type 0} (a : App W E) where
  charged-ne-invalid :
      (order_id : String) (req : OrderRequest) (r : Result E (Option ChargeResponse)) (w : W)
      → (charged a order_id req r w).0 ≢ invalid_json
  unfolding charged authorized
  charged-ne-invalid order_id req (err e) w = λ h. cc
  charged-ne-invalid order_id req (ok resp) w = ground arith

  refused :
      (req : Option OrderRequest) (w : W)
      → (((handle_create a req w).0 ≡ invalid_json) ↔ (is_some req ≡ false))
        × (is_some req ≡ false → (handle_create a req w).1 ≡ w)
  unfolding handle_create
  refused none w = (((λ e. refl), (λ e. refl)), (λ e. refl))
  refused (some req) w = (((λ h. absurd (charged-ne-invalid _ req _ _ h)), (λ e. cc)), (λ e. cc))

  -- A POST of an order is answered "invalid json" exactly when its body is not a JSON value, or the
  -- value is neither an object nor null, or a member whose name goes with one of the six tags has the
  -- wrong type or a number that does not fit; then the state is unchanged.
  pub create_body-refused :
      (body : Option Value) (w : W)
      → (((create_body a body w).0 ≡ invalid_json) ↔ (is_order body ≡ false))
        × (is_order body ≡ false → (create_body a body w).1 ≡ w)
  unfolding create_body
  create_body-refused body w = rw (← body-is_order body) (refused (body >>= decode_order) w)
