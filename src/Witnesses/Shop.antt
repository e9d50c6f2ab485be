-- ===== src/Witnesses/Shop.antt =====
-- An orders service whose collaborators are concrete: ids are counted, charges are authorized up to
-- an amount, and what is published is kept or lost.
use reliability_lab.Common.{
  ℕ, zero, suc, ◌+◌, String, List, [], ◌∷◌, Option, none, some, false, Result, ok, if◌then◌else◌,
}
use reliability_lab.Common.Int.{ℤ, pos, leb_ℤ}
use reliability_lab.Gen.PaymentsV1.{
  ChargeRequest, ChargeResponse, charge_authorized, charge_declined,
}
use reliability_lab.Orders.Create.{App, OrderRequest, Msg}

pub data ShopError : Type 0 where
  unreachable : ShopError

pub record Shop : Type 0 where
  pub drawn : ℕ
  pub published : List Msg

abbrev pub id_of : ℕ → String
id_of zero = "id-0"
id_of (suc n) = "id-n"

abbrev pub draw : Shop → String × Shop
draw x = (id_of x.drawn, record x { drawn = x.drawn + 1 })

abbrev amount_of : Option ChargeRequest → ℤ
amount_of none = pos 0
amount_of (some r) = r.amount_minor

-- Authorizes up to 100.
abbrev pub pay_small : Option ChargeRequest → Shop → Result ShopError (Option ChargeResponse) × Shop
pay_small r x = (
  ok (
      some (record {
        payment_id = "p";
        status = if leb_ℤ (amount_of r) (pos 100) then charge_authorized else charge_declined;
        decline_reason = "";
      })),
  x,
)

abbrev pub keep : Msg → Shop → Option ShopError × Shop
keep m x = (none, record x { published = m ∷ x.published })

abbrev pub lose : Msg → Shop → Option ShopError × Shop
lose m x = (some unreachable, x)

abbrev pub shop : App Shop ShopError
shop = record {
  pay = pay_small;
  new_string = draw;
  now = λ x. 7;
  inject = λ x. [];
  publish_msg = keep;
  subject = "orders.events.created";
  publishing_paused = false;
}

abbrev pub open_shop : Shop
open_shop = record { drawn = 0; published = [] }

abbrev pub order : OrderRequest
order = record {
  customer_id = "c";
  customer_email = "c@example.org";
  amount_minor = pos 42;
  currency = "EUR";
  sku = "SKU";
  quantity = pos 1;
}
