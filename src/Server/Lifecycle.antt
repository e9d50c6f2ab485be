-- ===== src/Server/Lifecycle.antt =====
-- operator/internal/server/server.go: the routes of Start, and what its server answers to a
-- request. How Start returns is modelled with pkg/obs/obs.go's Serve, which does the same.
pub mod Answers
use reliability_lab.Common.{String, Option, none, some, Bool, [], if◌then◌else◌}
use reliability_lab.Dedupe.Clock.{Time}
use reliability_lab.Http.{
  Pattern, exact, Mux, handle, Found, handler, not_allowed, not_found, route,
}
use reliability_lab.Server.Payload.{AlertManagerPayload}
use reliability_lab.Server.{Server, Response, handle_alert}

-- A request with its clean path; the body is `none` where it does not decode.
pub record Request : Type 0 where
  pub method : String
  pub path : String
  pub body : Option AlertManagerPayload

pub data Route : Type 0 where
  healthz alerts : Route

abbrev pub get_healthz : Pattern
get_healthz = record { method = some "GET"; path = exact "/healthz" }

abbrev pub post_alerts : Pattern
post_alerts = record { method = some "POST"; path = exact "/alerts" }

-- The mux of Start; `none` where a registration panics.
unfoldable pub start_mux : Option (Mux Route)
unfolding handle
start_mux = handle post_alerts alerts (handle get_healthz healthz (some []))

-- ServeMux's own answers.
abbrev pub not_found_page : Response
not_found_page = record { status = 404; body = "404 page not found\n" }

abbrev pub not_allowed_page : Response
not_allowed_page = record { status = 405; body = "Method Not Allowed\n" }

abbrev pub healthz_page : Response
healthz_page = record { status = 200; body = "ok" }

module _ {W E : Type 0} where
  unfoldable pub serve_found :
      Server W E → Found Route → Option AlertManagerPayload → Time → W → Response × Server W E × W
  serve_found s (handler healthz) p now w = (healthz_page, s, w)
  serve_found s (handler alerts) p now w = handle_alert s p now w
  serve_found s not_allowed p now w = (not_allowed_page, s, w)
  serve_found s not_found p now w = (not_found_page, s, w)

  abbrev serve_on :
      Option (Mux Route) → Server W E → Request → Time → W → Option (Response × Server W E × W)
  serve_on none s req now w = none
  serve_on (some mux) s req now w =
      some (serve_found s (route req.method req.path mux) req.body now w)

  -- A request to the server of Start; `none` where Start has panicked.
  unfoldable pub serve_request :
      Server W E → Request → Time → W → Option (Response × Server W E × W)
  unfolding serve_found start_mux route
  serve_request s req now w = serve_on start_mux s req now w
