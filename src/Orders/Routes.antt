-- ===== src/Orders/Routes.antt =====
-- services/orders-svc/main.go: the routes that main adds to those of obs.Mux.
use reliability_lab.Common.{◌≡◌, refl, Option, none, some}
use reliability_lab.Http.{Pattern, exact, any_path, Mux, handle, has_conflict, conflicts}
use reliability_lab.Obs.Routes.{ObsRoute, obs_mux}

pub data OrdersRoute : Type 0 where
  obs_route : ObsRoute → OrdersRoute
  create_route root_route : OrdersRoute

abbrev pub post_orders : Pattern
post_orders = record { method = some "POST"; path = exact "/orders" }

abbrev pub get_root : Pattern
get_root = record { method = some "GET"; path = any_path }

-- The registrations of main; `none` where one panics.
unfoldable pub orders_mux : Option (Mux OrdersRoute)
unfolding obs_mux handle
orders_mux = handle get_root root_route (handle post_orders create_route (obs_mux obs_route))

-- The pattern "GET /" and the patterns of obs.Mux, which have no method, each fit a GET of /healthz,
-- and neither is the more specific.
pub orders_mux-eq-none : orders_mux ≡ none
unfolding orders_mux obs_mux handle has_conflict conflicts
orders_mux-eq-none = refl
