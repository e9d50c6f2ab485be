-- ===== src/Witnesses/Clients.antt =====
-- The orders, payments and inventory services, the flag watcher and the email worker at concrete
-- requests.
use reliability_lab.Common.{◌≡◌, refl, List, [], ◌∷◌, Option, none, some}
use reliability_lab.Common.Int.{pos}
use reliability_lab.Common.Dict.{lookup}
use reliability_lab.Gen.InventoryV1.{ReserveRequest}
use reliability_lab.Gen.PaymentsV1.{get_status, get_payment_id}
use reliability_lab.Orders.Create.{charged, authorized, handle_create, created}
use reliability_lab.Inventory.Reservations.{
  Call, reserves, releases, run, held_after, release_of, run-held_after,
}
use reliability_lab.Witnesses.Shop.{shop, open_shop, order}

pub order_created : (handle_create shop (some order) open_shop).0 ≡ created "id-0" "p"
unfolding handle_create charged authorized get_status get_payment_id
order_created = refl

abbrev two_pens : Option ReserveRequest
two_pens = some (record { order_id = "o"; items = record { sku = "pen"; quantity = pos 2 } ∷ [] })

abbrev some_calls : List Call
some_calls = reserves "r1" two_pens ∷ reserves "r2" none ∷ releases (release_of "r2") ∷ []

run-held_after_example :
    lookup "r1" (run [] some_calls) ≡ held_after "r1" some_calls (lookup "r1" [])
run-held_after_example = run-held_after "r1" some_calls []
