-- ===== src/Witnesses/Remedies.antt =====
-- The remedies and the classifier at a concrete cluster.
use reliability_lab.Common.{◌≡◌, refl, ◌↔◌, [], ◌∷◌, none, some, arith, ok}
use reliability_lab.Common.Int.{pos, ◌+ℤ◌, ◌<ℤ◌, add_i32}
use reliability_lab.Common.Dict.{lookup, insert, index}
use reliability_lab.Classifier.{scale_up, circuit_break, Labels, label, classify, no_rule_matched}
use reliability_lab.Classifier.Policy.{Selects, classify-iff-Selects}
use reliability_lab.Remedy.{Input, target_key}
use reliability_lab.Remedy.Cluster.{Hpa}
use reliability_lab.Remedy.CircuitBreak.{after_get, flag_of, circuit_break_apply}
use reliability_lab.Remedy.CircuitBreak.Engages.{
  Engaged, entries_before, circuit_break_apply-Engaged,
}
use reliability_lab.Remedy.ScaleUp.{
  ScaleUp, step_of, current_of, target_of, scale_after_get, scale_up_apply,
}
use reliability_lab.Remedy.ScaleUp.Bounds.{
  min_ℤ, max_ℤ, scale_up_apply_floor, scale_up_apply_overflow,
}
use reliability_lab.Remedy.ScaleUp.Repeats.{apply_times, AllNil, scale_up_apply_twice}
use reliability_lab.Witnesses.Fixtures.{
  World, ClusterError, cluster, cluster-Laws, find_config_map, find_hpa, flags_key, payments_key,
  start_world,
}

abbrev payments_burning : Labels
payments_burning = ("severity", "page") ∷ ("service", "payments") ∷ ("burn_speed", "fast") ∷ []

classify-iff-Selects_example :
    (((classify payments_burning).kind ≡ scale_up)
      × ((classify payments_burning).target ≡ "payments-svc"))
    ↔ Selects
        (label payments_burning "severity")
        (label payments_burning "service")
        (label payments_burning "slo")
        (label payments_burning "burn_speed")
        scale_up
        "payments-svc"
classify-iff-Selects_example =
    classify-iff-Selects payments_burning scale_up "payments-svc" (λ e. cc)

abbrev brake : Input World ClusterError
brake = record {
  client = cluster;
  namespace = "reliability-lab";
  decision = record { kind = circuit_break; target = "orders-svc-flags"; reason = no_rule_matched };
}

brake_nil : (circuit_break_apply brake start_world).0 ≡ none
unfolding circuit_break_apply after_get find_config_map flag_of index lookup insert
brake_nil = refl

circuit_break_apply-Engaged_example :
    Engaged cluster flags_key
      (entries_before (cluster.get_config_map flags_key start_world))
      (circuit_break_apply brake start_world).1
circuit_break_apply-Engaged_example =
    circuit_break_apply-Engaged brake cluster-Laws start_world brake_nil

-- The step is 3.
abbrev by_three : ScaleUp
by_three = record { step = pos 3 }

abbrev scale_payments : Input World ClusterError
scale_payments = record {
  client = cluster;
  namespace = "reliability-lab";
  decision = record { kind = scale_up; target = "payments-svc"; reason = no_rule_matched };
}

abbrev payments_hpa : Hpa
payments_hpa = record { key = payments_key; min_replicas = some (pos 2); max_replicas = pos 10 }

found : cluster.get_hpa (target_key scale_payments) start_world ≡ ok payments_hpa
unfolding find_hpa
found = refl

scale_nil : (scale_up_apply by_three scale_payments start_world).0 ≡ none
unfolding scale_up_apply scale_after_get find_hpa target_of step_of add_i32
scale_nil = refl

scale_up_apply_floor_example :
    (h' : Hpa) × (cluster.get_hpa payments_key
        (scale_up_apply by_three scale_payments start_world).1
      ≡ ok h')
    × (h'.max_replicas ≡ pos 10)
    × (current_of h' ≡ max_ℤ (pos 2) (min_ℤ (pos 2 +ℤ step_of by_three) (pos 10)))
scale_up_apply_floor_example =
    scale_up_apply_floor by_three scale_payments cluster-Laws start_world payments_hpa found
      (unfold step_of in omega arith) scale_nil

-- With the largest step of an int32.
abbrev by_most : ScaleUp
by_most = record { step = pos 2147483647 }

scale_up_apply_overflow_example :
    scale_up_apply by_most scale_payments start_world ≡ (none, start_world)
scale_up_apply_overflow_example =
    scale_up_apply_overflow by_most scale_payments cluster-Laws start_world payments_hpa found
      (omega arith) (unfold step_of in omega arith) (omega arith) (unfold step_of in omega arith)

scale_up_apply_twice_example :
    (once : Hpa) × (again : Hpa) × (cluster.get_hpa payments_key
        (apply_times by_three scale_payments 1 start_world)
      ≡ ok once)
    × (cluster.get_hpa payments_key (apply_times by_three scale_payments 2 start_world) ≡ ok again)
    × (current_of once <ℤ current_of again)
scale_up_apply_twice_example =
    scale_up_apply_twice by_three scale_payments cluster-Laws start_world payments_hpa found
      (unfold step_of in omega arith) (unfold step_of in omega arith) both_nil
  where
    both_nil : AllNil by_three scale_payments 2 start_world
    both_nil =
        unfold scale_up_apply scale_after_get find_hpa target_of step_of add_i32 in
        (refl, (refl, tt))
