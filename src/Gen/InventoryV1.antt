-- ===== src/Gen/InventoryV1.antt =====
-- gen/go/inventory/v1: the messages of the inventory service with their getters, and its stubs.
use reliability_lab.Common.{String, List, [], Option, none, some, Bool, false}
use reliability_lab.Common.Int.{ℤ, pos}
use reliability_lab.Gen.Rpc.{Method, Invoke, client_call}

-- ReserveResponse_Status: an int32, of which these values have names.
abbrev pub ReserveStatus : Type 0
ReserveStatus = ℤ

abbrev pub reserve_unspecified : ReserveStatus
reserve_unspecified = pos 0

abbrev pub reserve_ok : ReserveStatus
reserve_ok = pos 1

abbrev pub reserve_out_of_stock : ReserveStatus
reserve_out_of_stock = pos 2

pub record LineItem : Type 0 where
  pub sku : String
  pub quantity : ℤ

pub record ReserveRequest : Type 0 where
  pub order_id : String
  pub items : List LineItem

pub record ReserveResponse : Type 0 where
  pub reservation_id : String
  pub status : ReserveStatus

pub record ReleaseRequest : Type 0 where
  pub reservation_id : String

pub record ReleaseResponse : Type 0 where
  pub released : Bool

unfoldable pub get_order_id : Option ReserveRequest → String
get_order_id (some x) = x.order_id
get_order_id none = ""

unfoldable pub get_items : Option ReserveRequest → List LineItem
get_items (some x) = x.items
get_items none = []

unfoldable pub get_reservation_id : Option ReserveResponse → String
get_reservation_id (some x) = x.reservation_id
get_reservation_id none = ""

unfoldable pub get_status : Option ReserveResponse → ReserveStatus
get_status (some x) = x.status
get_status none = reserve_unspecified

unfoldable pub get_release_id : Option ReleaseRequest → String
get_release_id (some x) = x.reservation_id
get_release_id none = ""

unfoldable pub get_released : Option ReleaseResponse → Bool
get_released (some x) = x.released
get_released none = false

unfoldable pub get_sku : Option LineItem → String
get_sku (some x) = x.sku
get_sku none = ""

unfoldable pub get_quantity : Option LineItem → ℤ
get_quantity (some x) = x.quantity
get_quantity none = pos 0

abbrev pub reserve_full_method : String
reserve_full_method = "/inventory.v1.InventoryService/Reserve"

abbrev pub release_full_method : String
release_full_method = "/inventory.v1.InventoryService/Release"

-- inventoryServiceClient.Reserve and Release, over a connection's Invoke.
module _ {W E : Type 0} where
  unfoldable pub client_reserve :
      Invoke W E ReserveRequest ReserveResponse → Method W E ReserveRequest ReserveResponse
  unfolding client_call
  client_reserve invoke = client_call invoke reserve_full_method

  unfoldable pub client_release :
      Invoke W E ReleaseRequest ReleaseResponse → Method W E ReleaseRequest ReleaseResponse
  unfolding client_call
  client_release invoke = client_call invoke release_full_method
