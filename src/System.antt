-- ===== src/System.antt =====
-- The components together: the control loop from an alert to the orders service, and the chain of
-- the services that an order passes through.
pub mod Dispatch
pub mod ControlLoop
pub mod OrderChain
pub mod WiredChain
pub mod Events
pub mod Mailing
pub mod StaysPaused
pub mod Calls
pub mod Braked
pub mod Reserved
pub mod Fulfilled
