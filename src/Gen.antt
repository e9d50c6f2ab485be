-- ===== src/Gen.antt =====
-- The gRPC messages and stubs under gen/go, as far as the services use them. A message pointer is
-- an Option, and a getter of a nil pointer gives the field's zero value.
pub mod Rpc
pub mod InventoryV1
pub mod PaymentsV1
pub mod Wire
