-- ===== src/Obs/Trace.antt =====
-- pkg/obs/trace.go: the exporter's endpoint and the sampling ratio. The environment is the value of
-- each variable, the empty text where it is unset.
pub mod Scheme
pub mod Sampling
pub mod Init
