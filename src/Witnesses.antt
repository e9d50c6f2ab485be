-- ===== src/Witnesses.antt =====
-- Concrete clusters, servers and requests, at which the theorems apply.
mod Fixtures
mod Shop
mod Pages
mod Remedies
mod Webhook
mod Wires
mod Clients
mod Api
mod Bodies
mod Mailing
mod Chain
mod Concurrent
mod Routes
mod Brake
mod Processes
mod Races
mod Brakes
mod Braked
mod AtOnce
mod Fulfilled
