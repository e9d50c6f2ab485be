-- ===== src/Gen/PaymentsV1.antt =====
-- gen/go/payments/v1: the messages of the payments service with their getters, and its stubs.
use reliability_lab.Common.{String, Option, none, some}
use reliability_lab.Common.Int.{ℤ, pos}
use reliability_lab.Gen.Rpc.{Method, Invoke, client_call}

-- ChargeResponse_Status: an int32, of which these values have names.
abbrev pub ChargeStatus : Type 0
ChargeStatus = ℤ

abbrev pub charge_unspecified : ChargeStatus
charge_unspecified = pos 0

abbrev pub charge_authorized : ChargeStatus
charge_authorized = pos 1

abbrev pub charge_declined : ChargeStatus
charge_declined = pos 2

pub record ChargeRequest : Type 0 where
  pub order_id : String
  pub customer_id : String
  pub amount_minor : ℤ
  pub currency : String

pub record ChargeResponse : Type 0 where
  pub payment_id : String
  pub status : ChargeStatus
  pub decline_reason : String

unfoldable pub get_order_id : Option ChargeRequest → String
get_order_id (some x) = x.order_id
get_order_id none = ""

unfoldable pub get_customer_id : Option ChargeRequest → String
get_customer_id (some x) = x.customer_id
get_customer_id none = ""

unfoldable pub get_amount_minor : Option ChargeRequest → ℤ
get_amount_minor (some x) = x.amount_minor
get_amount_minor none = pos 0

unfoldable pub get_currency : Option ChargeRequest → String
get_currency (some x) = x.currency
get_currency none = ""

unfoldable pub get_payment_id : Option ChargeResponse → String
get_payment_id (some x) = x.payment_id
get_payment_id none = ""

unfoldable pub get_status : Option ChargeResponse → ChargeStatus
get_status (some x) = x.status
get_status none = charge_unspecified

unfoldable pub get_decline_reason : Option ChargeResponse → String
get_decline_reason (some x) = x.decline_reason
get_decline_reason none = ""

abbrev pub charge_full_method : String
charge_full_method = "/payments.v1.PaymentsService/Charge"

-- paymentsServiceClient.Charge, over a connection's Invoke.
unfoldable pub client_charge :
    {W E : Type 0}
    → Invoke W E ChargeRequest ChargeResponse
    → Method W E ChargeRequest ChargeResponse
unfolding client_call
client_charge invoke = client_call invoke charge_full_method
