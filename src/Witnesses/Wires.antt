-- ===== src/Witnesses/Wires.antt =====
-- Package obs at concrete handlers, endpoints and variables.
use reliability_lab.Common.Text.{codes}
use reliability_lab.Obs.Trace.Scheme.{IsStripped, schemes, strip_scheme, strip_scheme-IsStripped}

strip_scheme-IsStripped_example :
    IsStripped schemes (codes "grpc://otel:4317") (strip_scheme (codes "grpc://otel:4317"))
strip_scheme-IsStripped_example = strip_scheme-IsStripped (codes "grpc://otel:4317")
