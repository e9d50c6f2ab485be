-- ===== src/Orders.antt =====
-- services/orders-svc: the HTTP entrypoint of the order flow.
pub mod Routes
pub mod Flag
pub mod Create
pub mod Concurrent
