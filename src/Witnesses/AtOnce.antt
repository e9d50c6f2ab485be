-- ===== src/Witnesses/AtOnce.antt =====
-- Two webhooks at once whose remedies have both read before either writes, at the in-memory cluster.
use reliability_lab.Common.{none, update, ◌≡◌, refl, [], ◌∷◌, some, ok, arith}
use reliability_lab.Common.{◌*◌}
use reliability_lab.Common.Int.{pos, ◌+ℤ◌, ◌≤ℤ◌}
use reliability_lab.System.Calls.Growth.{scale_ups, calls_growth}
use reliability_lab.Common.Dict.{lookup, index, insert}
use reliability_lab.Classifier.{classify, decide, label}
use reliability_lab.Dedupe.{new_dedupe, acquire, inside, gc}
use reliability_lab.Dedupe.Clock.{sub_time}
use reliability_lab.Remedy.Cluster.{Hpa, ConfigMap}
use reliability_lab.Remedy.CircuitBreak.{flag_of, after_get}
use reliability_lab.Remedy.ScaleUp.{current_of}
use reliability_lab.Server.Payload.{AlertManagerPayload, is_firing}
use reliability_lab.Server.{handle_alert}
use reliability_lab.Server.Concurrent.{reading, answered, advance, turn}
use reliability_lab.System.Dispatch.{operator}
use reliability_lab.System.Calls.{
  Calls, serving, braking, begin, step, moved, arrive, move, Steps, done, next, started, Steps-then,
}
use reliability_lab.System.Calls.Floor.{calls_keep_floor}
use reliability_lab.System.Calls.Alone.{run_alone, calls_alone-handle_alert}
use reliability_lab.Witnesses.Fixtures.{
  World, ClusterError, find_config_map, find_hpa, flags_key, payments_key, start_world,
}
use reliability_lab.Witnesses.Pages.{email_page, email_payload, flags}
use reliability_lab.Witnesses.Api.{api, api-ApiLaws}

abbrev pub idle_operator : Calls World ClusterError
idle_operator = started 5 (new_dedupe (pos 60)) start_world

-- Two payloads arrive, and their handlers read the clock, take the mutex and make their Gets in turn.
module _ (p q : AlertManagerPayload) where
  abbrev pub two_arrived : Calls World ClusterError
  two_arrived = record idle_operator {
    handlers =
        update (update idle_operator.handlers 0 (serving (reading p))) 1 (serving (reading q));
  }

  abbrev pub both_moved : Calls World ClusterError → Calls World ClusterError
  both_moved s = moved api flags (moved api flags s 0) 1

  abbrev pub both_hold : Calls World ClusterError
  both_hold = both_moved (both_moved (both_moved two_arrived))

  pub both_hold-Steps : Steps api flags idle_operator both_hold
  both_hold-Steps = next (arrive 0 p refl) (
      next (arrive 1 q refl) (
        next (move 0)
          (next (move 1) (next (move 0) (next (move 1) (next (move 0) (next (move 1) done)))))))

abbrev pub later_page : AlertManagerPayload → AlertManagerPayload
later_page p = record p {
  alerts = elim p.alerts [ [] ↦ [] | a ∷ rest ↦ record a { fingerprint = "f2" } ∷ rest ];
}

-- Two pages of the email worker, and two of the payments service.
abbrev pub both_brake : Calls World ClusterError
both_brake = both_hold email_payload (later_page email_payload)

abbrev payments_payload : AlertManagerPayload
payments_payload = record email_payload {
  alerts =
      record email_page {
        labels = ("severity", "page") ∷ ("service", "payments") ∷ ("burn_speed", "fast") ∷ [];
      }
      ∷ [];
}

abbrev both_scale : Calls World ClusterError
both_scale = both_hold payments_payload (later_page payments_payload)

abbrev pub on : ConfigMap
on = record {
  key = flags_key;
  entries = some (("publish_enabled", "true") ∷ ("owner", "orders") ∷ []);
}

-- The first is about to write, and its patch will succeed.
pub first_holds : both_brake.handlers 0 ≡ braking 5 [] flags_key (ok on)
unfolding step advance turn acquire inside lookup is_firing new_dedupe begin classify decide label
    index find_config_map after_get flag_of gc insert sub_time
first_holds = refl

pub first_returns : (after_get api flags_key (ok on) both_brake.cluster).0 ≡ none
unfolding step advance turn acquire inside lookup is_firing new_dedupe begin classify decide label
    index find_config_map after_get flag_of gc insert sub_time
first_returns = refl

abbrev scaled : Calls World ClusterError
scaled = moved api flags (moved api flags both_scale 0) 1

abbrev payments_hpa : Hpa
payments_hpa = record { key = payments_key; min_replicas = some (pos 2); max_replicas = pos 10 }

scaled-Steps : Steps api flags idle_operator scaled
scaled-Steps =
    Steps-then api flags (both_hold-Steps payments_payload (later_page payments_payload))
      (next (move 0) (next (move 1) done))

calls_keep_floor_example :
    (h : Hpa) × (api.get_hpa payments_key scaled.cluster ≡ ok h)
    × (h.max_replicas ≡ pos 10)
    × (pos 2 ≤ℤ current_of h)
    × (current_of h ≤ℤ pos 10)
unfolding find_hpa
calls_keep_floor_example =
    calls_keep_floor api flags payments_key payments_hpa api-ApiLaws refl (omega arith)
      (omega arith) (omega arith) scaled-Steps

calls_growth_example :
    (h : Hpa) × (api.get_hpa payments_key scaled.cluster ≡ ok h)
    × (pos 0 ≤ℤ current_of h)
    × (current_of h ≤ℤ pos 2 +ℤ pos (2 * scale_ups api flags scaled-Steps))
unfolding find_hpa
calls_growth_example =
    calls_growth api flags payments_key payments_hpa api-ApiLaws refl (omega arith) scaled-Steps

calls_alone-handle_alert_example :
    let (response, s, w') = handle_alert (operator api flags) (some email_payload) 5 start_world in
    run_alone api flags 5 5
      (serving (reading email_payload))
      (operator api flags).dedupe
      start_world
    ≡ (serving (answered response), s.dedupe, w')
calls_alone-handle_alert_example =
    calls_alone-handle_alert api flags 5 5 email_payload (operator api flags).dedupe start_world
      (omega arith)
