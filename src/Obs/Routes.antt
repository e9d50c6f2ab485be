-- ===== src/Obs/Routes.antt =====
-- pkg/obs/obs.go: Mux, the routes /metrics, /healthz and /readyz. The metrics page is promhttp's.
use reliability_lab.Common.{◌≡◌, refl, String, str_eq, [], Option, none, some, arith, if◌then◌else◌}
use reliability_lab.Common.Text.{str_eq_apart}
use reliability_lab.Http.{
  Pattern, exact, Mux, handle, has_conflict, conflicts, best, knows_path, Found, handler,
  not_allowed, not_found, route,
}
use reliability_lab.Obs.Health.{Health, Page, healthz, readyz}

-- A pattern without a method.
abbrev pub page_at : String → Pattern
page_at path = record { method = none; path = exact path }

pub data ObsRoute : Type 0 where
  metrics_route healthz_route readyz_route : ObsRoute

-- The registrations of Mux, each with the handler that `h` gives.
unfoldable pub obs_mux : {H : Type 0} → (ObsRoute → H) → Option (Mux H)
unfolding handle has_conflict conflicts
obs_mux h = handle (page_at "/readyz") (h readyz_route) (
    handle (page_at "/healthz") (h healthz_route)
      (handle (page_at "/metrics") (h metrics_route) (some [])))

abbrev pub not_found_page : Page
not_found_page = record { status = 404; body = "404 page not found\n" }

abbrev pub not_allowed_page : Page
not_allowed_page = record { status = 405; body = "Method Not Allowed\n" }

unfoldable pub obs_page : Page → Health → Found ObsRoute → Page
obs_page metrics h (handler metrics_route) = metrics
obs_page metrics h (handler healthz_route) = healthz h
obs_page metrics h (handler readyz_route) = readyz h
obs_page metrics h not_allowed = not_allowed_page
obs_page metrics h not_found = not_found_page

abbrev pub served_on : Option (Mux ObsRoute) → Page → Health → String → String → Option Page
served_on none metrics h method path = none
served_on (some mux) metrics h method path = some (obs_page metrics h (route method path mux))

-- A request to the server of payments-svc, inventory-svc or email-worker; `none` where Mux panics.
unfoldable pub serve_obs : Page → Health → String → String → Option Page
unfolding obs_mux obs_page
serve_obs metrics h method path = served_on (obs_mux (λ r. r)) metrics h method path

-- Mux registers its routes without a panic. Whatever the method, it answers /metrics by promhttp's
-- page, /healthz and /readyz by what the flags say, and every other path by 404.
pub serve_obs-pages :
    (metrics : Page) (h : Health) (method path : String)
    → serve_obs metrics h method path
      ≡ some (
          if str_eq "/metrics" path
          then metrics
          else if str_eq "/healthz" path
          then healthz h
          else if str_eq "/readyz" path
          then readyz h
          else not_found_page)
unfolding serve_obs handle has_conflict conflicts route best knows_path
serve_obs-pages metrics h method path = ground (
  arith,
  str_eq_apart "/metrics" "/healthz" path refl,
  str_eq_apart "/metrics" "/readyz" path refl,
  str_eq_apart "/healthz" "/readyz" path refl,
)
