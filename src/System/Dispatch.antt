-- ===== src/System/Dispatch.antt =====
-- From the labels of an alert to the remedy that acts on the cluster: the classifier, the registry
-- that main fills, the server's defaults and the remedies together.
use reliability_lab.Common.{◌≡◌, ap, String}
use reliability_lab.Common.Int.{pos}
use reliability_lab.Classifier.{Kind, no_remedy, rollback, scale_up, circuit_break, label, classify}
use reliability_lab.Classifier.Policy.{Selects, classify-iff-Selects}
use reliability_lab.Remedy.Cluster.{Client}
use reliability_lab.Remedy.{Input, target_key}
use reliability_lab.Remedy.CircuitBreak.{circuit_break_apply}
use reliability_lab.Remedy.ScaleUp.{scale_up_apply}
use reliability_lab.Remedy.Rollback.{rollback_apply}
use reliability_lab.Remedy.Registry.{apply_found, apply}
use reliability_lab.Server.Payload.{Alert}
use reliability_lab.Server.{Server, new_server, with_defaults, dispatch}
use reliability_lab.Manager.{Flags, manager_config}
use reliability_lab.Manager.Wiring.{lookup-manager_registry}

-- The cluster after the remedy of a kind.
abbrev pub remedied : {W E : Type 0} → Kind → Input W E → W → W
remedied no_remedy i w = w
remedied rollback i w = (rollback_apply i w).1
remedied scale_up i w = (scale_up_apply (record { step = pos 0 }) i w).1
remedied circuit_break i w = (circuit_break_apply i w).1

module _ {W E : Type 0} (client : Client W E) (flags : Flags) where
  -- The server that main builds.
  abbrev pub operator : Server W E
  operator = new_server (manager_config client flags)

  -- What the remedy of an alert is given.
  abbrev pub input_for : Alert → Input W E
  input_for a = record {
    client = client;
    namespace = "reliability-lab";
    decision = classify a.labels;
  }

  pub dispatch_by :
      (a : Alert) (w : W) (k : Kind)
      → (classify a.labels).kind ≡ k
      → dispatch operator.cfg a w ≡ remedied k (input_for a) w
  unfolding dispatch new_server with_defaults manager_config apply apply_found
  dispatch_by a w no_remedy e = rw e
  dispatch_by a w rollback e = rw (e, lookup-manager_registry rollback)
  dispatch_by a w scale_up e = rw (e, lookup-manager_registry scale_up)
  dispatch_by a w circuit_break e = rw (e, lookup-manager_registry circuit_break)

  -- Where a rule of the policy selects a remedy and an object for the labels of an alert, the
  -- dispatch of the operator that main builds leaves the cluster as that remedy leaves it, applied
  -- to that object in the namespace reliability-lab.
  pub dispatch-Selects :
      (a : Alert) (w : W) (k : Kind) (target : String)
      → Selects
          (label a.labels "severity")
          (label a.labels "service")
          (label a.labels "slo")
          (label a.labels "burn_speed")
          k
          target
      → (dispatch operator.cfg a w ≡ remedied k (input_for a) w)
        × (target_key (input_for a) ≡ record { namespace = "reliability-lab"; name = target })
  dispatch-Selects a w no_remedy target s = absurd s
  dispatch-Selects a w k target s =
      let (kind, name) = (classify-iff-Selects a.labels k target (λ e. cc)).1 s in
      (dispatch_by a w k kind, ap (λ n. record { namespace = "reliability-lab"; name = n }) name)
