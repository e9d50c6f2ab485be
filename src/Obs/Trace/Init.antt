-- ===== src/Obs/Trace/Init.antt =====
-- pkg/obs/trace.go: InitTracing. The OpenTelemetry SDK is an argument: the errors of resource.New
-- and of otlptrace.New.
use reliability_lab.Common.{ℕ, List, [], ◌∷◌, Option, none, some, Result, ok, err, ◌≡◌, refl}
use reliability_lab.Obs.Trace.Scheme.{strip_scheme}

-- The tracer provider that is installed: without an exporter, or with a batching one to an endpoint
-- and a parent-based sampler of a ratio.
pub data Provider (F : Type 0) : Type 0 where
  no_exporter : Provider F
  batching : List ℕ → F → Provider F

pub data TracingError (E : Type 0) : Type 0 where
  otel_resource : E → TracingError E
  otel_exporter : E → TracingError E

-- otlptrace.New's error, for the endpoint that it is given.
abbrev pub Exporter : Type 0 → Type 0
Exporter E = List ℕ → Option E

module _ {F E : Type 0} where
  abbrev with_endpoint : List ℕ → Exporter E → F → Result (TracingError E) (Provider F)
  with_endpoint [] exporter ratio = ok no_exporter
  with_endpoint (c ∷ ep) exporter ratio =
      let stripped = strip_scheme (c ∷ ep) in
      elim (exporter stripped) [
        | none ↦ ok (batching stripped ratio)
        | some e ↦ err (otel_exporter e)
      ]

  -- `endpoint` is OTEL_EXPORTER_OTLP_ENDPOINT, and `ratio` samplingRatio's result.
  unfoldable pub init_tracing :
      Option E → List ℕ → Exporter E → F → Result (TracingError E) (Provider F)
  init_tracing (some e) endpoint exporter ratio = err (otel_resource e)
  init_tracing none endpoint exporter ratio = with_endpoint endpoint exporter ratio

  -- Without an endpoint no exporter is asked for: whatever the exporter would do, the provider has
  -- none, and the ratio is not looked at.
  pub init_tracing_unset :
      (exporter : Exporter E) (ratio : F) → init_tracing none [] exporter ratio ≡ ok no_exporter
  unfolding init_tracing
  init_tracing_unset exporter ratio = refl
