-- ===== src/Witnesses/Brake.antt =====
-- The dispatch of a page, and the flag watcher, at concrete objects.
use reliability_lab.Common.{◌≡◌, refl, ◌↔◌, List, [], ◌∷◌, none, some, false}
use reliability_lab.Common.Text.{codes}
use reliability_lab.Common.Dict.{lookup, index}
use reliability_lab.Classifier.{label, circuit_break}
use reliability_lab.Classifier.Policy.{Selects}
use reliability_lab.Remedy.{target_key}
use reliability_lab.Server.{dispatch}
use reliability_lab.System.Dispatch.{input_for, remedied, dispatch-Selects}
use reliability_lab.Orders.Flag.{Event, ctx_done, tick, changed, watch_error, watch_circuit_break}
use reliability_lab.Orders.Flag.Follows.{last_file}
use reliability_lab.Orders.Flag.Pauses.{IsEnabled, watch_circuit_break-pauses}
use reliability_lab.Witnesses.Fixtures.{cluster, start_world, flags_key}
use reliability_lab.Witnesses.Pages.{email_page, flags, op}
use reliability_lab.Witnesses.Shop.{ShopError, unreachable}

email_selected :
    Selects
      (label email_page.labels "severity")
      (label email_page.labels "service")
      (label email_page.labels "slo")
      (label email_page.labels "burn_speed")
      circuit_break
      "orders-svc-flags"
unfolding label index lookup
email_selected = (refl, refl, refl)

dispatch-Selects_example :
    (dispatch op.cfg email_page start_world
      ≡ remedied circuit_break (input_for cluster flags email_page) start_world)
    × (target_key (input_for cluster flags email_page) ≡ flags_key)
dispatch-Selects_example =
    dispatch-Selects cluster flags email_page start_world circuit_break "orders-svc-flags"
      email_selected

-- The flag is taken away, then set, an error of the watcher comes, the file is "True" with space
-- around it, and the watcher returns before the flag is set again.
abbrev flag_events : List (Event ShopError)
flag_events =
    changed none
    ∷ tick (some (codes "false"))
    ∷ watch_error unreachable
    ∷ changed (some (codes " True\n"))
    ∷ ctx_done
    ∷ tick (some (codes "false"))
    ∷ []

watch_circuit_break-pauses_example :
    ((watch_circuit_break (some (codes "false")) none none flag_events).0 ≡ false)
    ↔ IsEnabled (last_file (some (codes "false")) flag_events)
watch_circuit_break-pauses_example = watch_circuit_break-pauses (some (codes "false")) flag_events
