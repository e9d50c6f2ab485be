-- ===== src/Manager.antt =====
-- operator/cmd/manager/main.go: the entry point of the operator. The command line's values and the
-- errors of the controller-runtime calls are arguments; the logger is left out.
pub mod Wiring
use reliability_lab.Common.{String, Option, none, some, Bool, true, false, ℕ, Result, ok, err}
use reliability_lab.Common.Int.{ℤ, pos}
use reliability_lab.Classifier.{Kind, rollback, scale_up, circuit_break}
use reliability_lab.Remedy.Cluster.{Client}
use reliability_lab.Remedy.CircuitBreak.{circuit_break_apply}
use reliability_lab.Remedy.ScaleUp.{ScaleUp, scale_up_apply}
use reliability_lab.Remedy.Rollback.{rollback_apply}
use reliability_lab.Remedy.Registry.{Registry, new_registry, register}
use reliability_lab.Server.{Config, Server, new_server}

-- The values of the flags, after their defaults.
pub record Flags : Type 0 where
  pub webhook_addr : String
  pub metrics_addr : String
  pub probe_addr : String
  pub leader_elect : Bool

-- The flags that the command line gives.
pub record Given : Type 0 where
  pub webhook_addr : Option String
  pub metrics_addr : Option String
  pub probe_addr : Option String
  pub leader_elect : Option Bool

abbrev or_default : {A : Type 0} → Option A → A → A
or_default none d = d
or_default (some a) d = a

unfoldable pub parse_flags : Given → Flags
parse_flags g = record {
  webhook_addr = or_default g.webhook_addr ":8088";
  metrics_addr = or_default g.metrics_addr ":8090";
  probe_addr = or_default g.probe_addr ":8091";
  leader_elect = or_default g.leader_elect false;
}

-- manager.Options, as main fills them.
pub record Options : Type 0 where
  pub health_probe_bind_address : String
  pub leader_election : Bool
  pub leader_election_id : String

-- The calls of controller-runtime, each with the error that it returns.
pub record Runtime (W E : Type 0) : Type 0 where
  pub client : Client W E
  pub new_manager : Options → Option E
  pub add_healthz_check : Option E
  pub add_readyz_check : Option E
  pub add : Server W E → Option E
  pub start : Option E

-- Where main stopped with exit code 1.
pub data Failure : Type 0 where
  start_manager add_healthz add_readyz add_webhook manager_exited : Failure

infixl 5 ◌>>=◌
abbrev pub ◌>>=◌ : {A B : Type 0} → Result Failure A → (A → Result Failure B) → Result Failure B
ok a >>= f = f a
err e >>= f = err e

infixl 5 ◌>>◌
abbrev pub ◌>>◌ : {B : Type 0} → Result Failure (Unit {0}) → Result Failure B → Result Failure B
m >> k = m >>= λ _. k

abbrev pub check : {E : Type 0} → Option E → Failure → Result Failure (Unit {0})
check none f = ok tt
check (some e) f = err f

abbrev pub options_of : Flags → Options
options_of flags = record {
  health_probe_bind_address = flags.probe_addr;
  leader_election = flags.leader_elect;
  leader_election_id = "remediation-operator.reliability-lab";
}

module _ {W E : Type 0} where
  -- The registry that main fills; the scale-up has no step of its own.
  unfoldable pub manager_registry : Registry W E
  manager_registry =
      register
        (register (register new_registry rollback rollback_apply) scale_up
          (scale_up_apply (record { step = pos 0 })))
        circuit_break circuit_break_apply

  -- The configuration of the webhook server: no cooldown and no namespace, so New's defaults hold.
  unfoldable pub manager_config : Client W E → Flags → Config W E
  unfolding manager_registry
  manager_config client flags = record {
    addr = flags.webhook_addr;
    client = client;
    version = "dev";
    cooldown = pos 0;
    namespace = "";
    remedies = some manager_registry;
  }

  -- main: the server that ran until the manager stopped, or where it exited with code 1.
  unfoldable pub main : Runtime W E → Given → Result Failure (Server W E)
  unfolding manager_config
  main rt given = do
    let flags = parse_flags given
    check (rt.new_manager (options_of flags)) start_manager
    check rt.add_healthz_check add_healthz
    check rt.add_readyz_check add_readyz
    let srv = new_server (manager_config rt.client flags)
    check (rt.add srv) add_webhook
    check rt.start manager_exited
    ok srv
