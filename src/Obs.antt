-- ===== src/Obs.antt =====
-- pkg/obs: the observability helpers that every service uses.
pub mod Health
pub mod Routes
pub mod Serve
pub mod RedMetrics
pub mod Trace
