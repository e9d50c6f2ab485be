-- ===== src/Services.antt =====
-- The entry points of the four services, and the handler of the email worker.
pub mod Config
pub mod Startup
pub mod Email
pub mod Process
pub mod Cleanup
