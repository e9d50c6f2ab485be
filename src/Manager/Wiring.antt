-- ===== src/Manager/Wiring.antt =====
-- What main hands to the webhook server.
use reliability_lab.Common.{◌≡◌, refl, ◌↔◌, String, Option, none, some, arith, ok}
use reliability_lab.Common.Int.{pos, ◌≤ℤ◌}
use reliability_lab.Classifier.{Kind, no_remedy, rollback, scale_up, circuit_break}
use reliability_lab.Dedupe.Clock.{max_duration}
use reliability_lab.Dedupe.{new_dedupe}
use reliability_lab.Remedy.{Remedy}
use reliability_lab.Remedy.CircuitBreak.{circuit_break_apply}
use reliability_lab.Remedy.ScaleUp.{scale_up_apply}
use reliability_lab.Remedy.Rollback.{rollback_apply}
use reliability_lab.Remedy.Registry.{new_registry, register, lookup_remedy}
use reliability_lab.Server.{Config, new_server, with_defaults}
use reliability_lab.Server.Accepted.{IsReady}
use reliability_lab.Manager.{
  Given, parse_flags, Runtime, options_of, manager_registry, manager_config, main,
}

-- A server that New builds with a cooldown that is an int64 has a positive cooldown, and no
-- fingerprint stamped: its dedupe is ready for the alert loop.
pub new_server-IsReady :
    {W E : Type 0} (cfg : Config W E)
    → cfg.cooldown ≤ℤ max_duration
    → IsReady (new_server cfg).cfg.cooldown (new_server cfg).dedupe
unfolding new_server with_defaults new_dedupe
new_server-IsReady cfg h = record { cooldown_fixed = refl; positive = ground arith; distinct = tt }

-- The remedy of each kind.
abbrev pub remedy_of : {W E : Type 0} → Kind → Option (Remedy W E)
remedy_of no_remedy = none
remedy_of rollback = some rollback_apply
remedy_of scale_up = some (scale_up_apply (record { step = pos 0 }))
remedy_of circuit_break = some circuit_break_apply

-- The registry of main has the remedy of every kind that acts, and none for the other.
pub lookup-manager_registry :
    {W E : Type 0} (k : Kind) → lookup_remedy (manager_registry {W = W} {E = E}) k ≡ remedy_of k
unfolding manager_registry lookup_remedy register new_registry
lookup-manager_registry no_remedy = refl
lookup-manager_registry rollback = refl
lookup-manager_registry scale_up = refl
lookup-manager_registry circuit_break = refl

-- Every call that main makes of controller-runtime returns nil.
abbrev pub AllStarted : {W E : Type 0} → Runtime W E → Given → Type 0
AllStarted rt given =
    (rt.new_manager (options_of (parse_flags given)) ≡ none)
    × (rt.add_healthz_check ≡ none)
    × (rt.add_readyz_check ≡ none)
    × (rt.add (new_server (manager_config rt.client (parse_flags given))) ≡ none)
    × (rt.start ≡ none)

module _ {W E : Type 0} (rt : Runtime W E) (given : Given) where
  -- main runs to its end with New's server of the configuration with the flags' webhook address
  -- exactly when every call of controller-runtime returns nil.
  pub main_iff :
      (main rt given ≡ ok (new_server (manager_config rt.client (parse_flags given))))
      ↔ AllStarted rt given
  unfolding main
  main_iff = (λ h. ground arith, λ h. ground arith)

  -- The metrics-addr flag changes nothing: neither what the manager is given nor the server.
  pub main-metrics_addr :
      (addr : Option String) → main rt (record given { metrics_addr = addr }) ≡ main rt given
  unfolding main parse_flags
  main-metrics_addr addr = refl
