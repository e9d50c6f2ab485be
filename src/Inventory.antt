-- ===== src/Inventory.antt =====
-- services/inventory-svc/main.go: the store of reservations. The mutex makes each call one step on
-- the store; the reservation's id is drawn by uuid.NewString, an argument here.
pub mod Reservations
use reliability_lab.Common.{String, List, Option, none, some, Bool, true, false}
use reliability_lab.Common.Dict.{Dict, lookup, insert, delete}
use reliability_lab.Gen.InventoryV1.{
  LineItem, ReserveRequest, ReserveResponse, ReleaseRequest, ReleaseResponse, reserve_ok, get_items,
  get_release_id,
}

abbrev pub Store : Type 0
Store = Dict (List LineItem)

-- Reserve; it returns no error.
unfoldable pub reserve : String → Option ReserveRequest → Store → ReserveResponse × Store
reserve id req store =
    (record { reservation_id = id; status = reserve_ok }, insert id (get_items req) store)

abbrev pub is_present : {A : Type 0} → Option A → Bool
is_present none = false
is_present (some a) = true

-- Release; it returns no error.
unfoldable pub release : Option ReleaseRequest → Store → ReleaseResponse × Store
release req store =
    let found = is_present (lookup (get_release_id req) store) in
    (record { released = found }, delete (get_release_id req) store)
